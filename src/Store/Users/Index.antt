-- ===== src/Store/Users/Index.antt =====
-- The two maps of users in internal/store/store.go, `users` and `emailIndex`.
use fxcore.Prelude.{
  ℕ, ◌≡◌, ◌≢◌, refl, inl, inr, true, false, String, str_eq, eq_iff, eq_refl, none, some, arith,
  is_some, Option-cases, Bool-cases,
}
use fxcore.Prelude.Dict.{lookup, insert}
use fxcore.Prelude.Dict.Laws.{lookup-insert}
use fxcore.Model.User.{User}
use fxcore.Store.{Store}
use fxcore.Store.Users.{
  email_taken, stamped, add_user, create_user, user_at, get_user_by_email, get_user_by_id,
}

module _ {F : Type 0} where
  -- Each user stands under its own id, and is the one that its address leads to; an address in the
  -- index leads to a user of that address. So no two users share an address.
  pub record IsIndexed (s : Store F) : Type 0 where
    pub own_id : (id : String) (u : User) → lookup id s.users ≡ some u → u.id ≡ id
    pub by_email :
        (id : String) (u : User)
        → lookup id s.users ≡ some u
        → lookup u.email s.email_index ≡ some id
    pub leads :
        (email id : String)
        → lookup email s.email_index ≡ some id
        → (u : User) × (lookup id s.users ≡ some u) × (u.email ≡ email)

  -- No two users have one address.
  pub email_unique :
      (s : Store F) (i j : String) (u v : User)
      → IsIndexed s
      → get_user_by_id i s ≡ some u
      → get_user_by_id j s ≡ some v
      → u.email ≡ v.email
      → i ≡ j
  unfolding get_user_by_id
  email_unique s i j u v h p q e = ground (arith, h.by_email i u p, h.by_email j v q)

  add_user-IsIndexed :
      (u : User) (s : Store F)
      → IsIndexed s
      → lookup u.email s.email_index ≡ none
      → lookup u.id s.users ≡ none
      → IsIndexed (add_user u s)
  add_user-IsIndexed u s h free fresh = record {
    own_id = λ id v p. own id v p;
    by_email = λ id v p. there id v p;
    leads = λ email id p. back email id p;
  }
    where
      own : (id : String) (v : User) → lookup id (insert u.id u s.users) ≡ some v → v.id ≡ id
      own id v p = ground (arith, eq_iff u.id id, lookup-insert u.id id u s.users, h.own_id id v)

      there :
          (id : String) (v : User)
          → lookup id (insert u.id u s.users) ≡ some v
          → lookup v.email (insert u.email u.id s.email_index) ≡ some id
      there id v p = ground (
        arith,
        eq_iff u.id id,
        eq_iff u.email v.email,
        lookup-insert u.id id u s.users,
        lookup-insert u.email v.email u.id s.email_index,
        h.by_email id v,
      )

      back :
          (email id : String)
          → lookup email (insert u.email u.id s.email_index) ≡ some id
          → (v : User) × (lookup id (insert u.id u s.users) ≡ some v) × (v.email ≡ email)
      back email id p = elim (Bool-cases (str_eq u.email email)) [
        | inl e ↦ (
          u,
          ground (
            arith,
            lookup-insert u.email email u.id s.email_index,
            lookup-insert u.id id u s.users,
            eq_iff u.id id,
          ),
          (eq_iff u.email email).0 e,
        )
        | inr e ↦
            let before : lookup email s.email_index ≡ some id =
              ground (arith, lookup-insert u.email email u.id s.email_index) in
            let (v, found, same) = h.leads email id before in
            (v, ground (arith, lookup-insert u.id id u s.users, eq_iff u.id id, found), same)
      ]

  added :
      (w : User) (s : Store F)
      → user_at (lookup w.email (insert w.email w.id s.email_index)) (add_user w s) ≡ some w
  added w s = rw (lookup-insert, eq_refl) (rw (lookup-insert, eq_refl))

  others :
      (w : User) (s : Store F) (j : String)
      → j ≢ w.email
      → lookup w.id s.users ≡ none
      → IsIndexed s
      → user_at (lookup j (insert w.email w.id s.email_index)) (add_user w s)
        ≡ user_at (lookup j s.email_index) s
  others w s j ne new h = elim (Option-cases (lookup j s.email_index)) [
    | inl p ↦ rw lookup-insert (ground (arith, eq_iff w.email j, p))
    | inr (id, p) ↦
        let (v, found, same) = h.leads j id p in
        rw lookup-insert (
          ground
            (arith, eq_iff w.email j, p, found, eq_iff w.id id, lookup-insert w.id id w s.users))
  ]

  -- `CreateUser` under a new id refuses an address that is taken, and then changes nothing; if not,
  -- it keeps the two maps in step, the user is found by the address, and every other address leads
  -- where it led.
  pub create_user_lem :
      (now : ℕ) (fresh : String) (u : User) (s : Store F)
      → IsIndexed s
      → lookup (stamped now fresh u).id s.users ≡ none
      → let (e, s') = create_user now fresh u s in
        IsIndexed s'
        × (is_some (get_user_by_email u.email s) ≡ true → (e ≡ some email_taken) × (s' ≡ s))
        × (is_some (get_user_by_email u.email s) ≡ false
            → (e ≡ none)
              × (get_user_by_email u.email s' ≡ some (stamped now fresh u))
              × ((j : String) → j ≢ u.email → get_user_by_email j s' ≡ get_user_by_email j s))
  unfolding create_user get_user_by_email
  create_user_lem now fresh u s h new = elim (Option-cases (lookup u.email s.email_index)) [
    | inr (id, taken) ↦
        let (v, found, same) = h.leads u.email id taken in
        rw (taken, is_some) (rw found (h, λ e. (refl, refl), λ e. cc))
    | inl free ↦
        let w : User = stamped now fresh u in
        rw free (
          add_user-IsIndexed w s h free new,
          λ e. cc,
          λ e. (refl, added w s, λ j ne. others w s j ne new h),
        )
  ]
