-- ===== src/Cache/Token/View.antt =====
-- What a token store promises, with the map, the sweep and the lazy deletion left out: who owns
-- which token at which instant.
use fxcore.Prelude.{
  ℕ, ◌+◌, ◌≤◌, ◌≡◌, refl, inl, inr, Option, none, some, String, str_eq, eq_iff, arith, ltb,
  if◌then◌else◌, length, Bool-cases, Option-cases,
}
use fxcore.Prelude.Dict.{Dict, lookup, purge, IsMap}
use fxcore.Prelude.Dict.Laws.{
  lookup-insert, lookup-erase, lookup-purge, insert-IsMap, erase-IsMap, purge-IsMap,
}
use fxcore.Cache.{max_mem_keys}
use fxcore.Cache.Token.{
  MemToken, TokenStore, expired, set, get, del, rotate, Call, set_call, get_call, del_call,
  rotate_call, step,
}

-- The owner of a token at an instant; `none` if the token is not valid then.
abbrev pub View : Type 0
View = ℕ → String → Option String

abbrev owner_of : ℕ → Option MemToken → Option String
owner_of t none = none
owner_of t (some e) = if ltb e.exp t then none else some e.user_id

pub view : TokenStore → View
view s t token = owner_of t (lookup token s.items)

-- A token issued at `now` for `ttl`, as seen at `t`.
abbrev issued : ℕ → ℕ → String → ℕ → Option String
issued now ttl user_id t = if ltb (now + ttl) t then none else some user_id

-- The specification: the answer of each call, and the ownership after it.
abbrev pub answer : ℕ → Call → View → Option String
answer now (set_call token user_id ttl) v = none
answer now (get_call token) v = v now token
answer now (del_call token) v = none
answer now (rotate_call old_token new_token ttl) v = v now old_token

abbrev rotated : String → String → ℕ → ℕ → Option String → View → View
rotated old_token new_token now ttl none v t j = v t j
rotated old_token new_token now ttl (some user_id) v t j =
    if str_eq new_token j
    then issued now ttl user_id t
    else (if str_eq old_token j then none else v t j)

abbrev pub after : ℕ → Call → View → View
after now (set_call token user_id ttl) v t j =
    if str_eq token j then issued now ttl user_id t else v t j
after now (get_call token) v t j = v t j
after now (del_call token) v t j = if str_eq token j then none else v t j
after now (rotate_call old_token new_token ttl) v t j =
    rotated old_token new_token now ttl (v now old_token) v t j

abbrev pub IsWell : TokenStore → Type 0
IsWell s = IsMap s.items

-- Every call keeps the keys of the map distinct.
pub step-IsWell : (now : ℕ) (c : Call) (s : TokenStore) → IsWell s → IsWell (step now c s).1
unfolding step set get del rotate
step-IsWell now (set_call token user_id ttl) s w =
    let e : MemToken = record { user_id = user_id; exp = now + ttl } in
    elim (Bool-cases (ltb max_mem_keys (length s.items))) [
      | inl p ↦ rw p (insert-IsMap token e _ (purge-IsMap (expired now) s.items w))
      | inr p ↦ rw p (insert-IsMap token e _ w)
    ]
step-IsWell now (get_call token) s w = ground (arith, erase-IsMap token s.items w)
step-IsWell now (del_call token) s w = erase-IsMap token s.items w
step-IsWell now (rotate_call old_token new_token ttl) s w =
    elim (Option-cases (lookup old_token s.items)) [
      | inl p ↦ rw (p, rotate) w
      | inr (e, p) ↦
          rw (p, rotate)
            (elim (Bool-cases (ltb e.exp now)) [
              | inl q ↦ rw q w
              | inr q ↦ rw q (insert-IsMap new_token _ _ (erase-IsMap old_token s.items w))
            ])
    ]

-- Sweeping expired entries changes no ownership from then on.
purge_view :
    (now t : ℕ) (j : String) (m : Dict MemToken)
    → IsMap m
    → now ≤ t
    → owner_of t (lookup j (purge (expired now) m)) ≡ owner_of t (lookup j m)
purge_view now t j m w h = rw (lookup-purge (expired now) j m w) (ground arith)

view-set :
    (now t : ℕ) (token user_id : String) (ttl : ℕ) (s : TokenStore) (j : String)
    → IsWell s
    → now ≤ t
    → view (set now token user_id ttl s) t j ≡ after now (set_call token user_id ttl) (view s) t j
unfolding view set
view-set now t token user_id ttl s j w h = elim (Bool-cases (ltb max_mem_keys (length s.items))) [
  | inl p ↦ rw (p, lookup-insert) (ground (arith, purge_view now t j s.items w h))
  | inr p ↦ rw (p, lookup-insert) (ground arith)
]

view-rotate :
    (now t : ℕ) (old_token new_token : String) (ttl : ℕ) (s : TokenStore) (j : String)
    → view (rotate now old_token new_token ttl s).1 t j
      ≡ after now (rotate_call old_token new_token ttl) (view s) t j
unfolding view rotate
view-rotate now t old_token new_token ttl s j = elim (Option-cases (lookup old_token s.items)) [
  | inl p ↦ rw (p, rotate)
  | inr (x, p) ↦
      rw (p, rotate)
        (elim (Bool-cases (ltb x.exp now)) [
          | inl q ↦ rw q refl
          | inr q ↦ rw q (rw (lookup-insert, lookup-erase) (ground arith))
        ])
]

view-get :
    (now t : ℕ) (token : String) (s : TokenStore) (j : String)
    → now ≤ t
    → view (get now token s).1 t j ≡ view s t j
unfolding view get
view-get now t token s j h = elim (Option-cases (lookup token s.items)) [
  | inl p ↦ rw (p, get)
  | inr (x, p) ↦
      rw (p, get)
        (elim (Bool-cases (ltb x.exp now)) [
          | inl q ↦ rw q (rw lookup-erase (ground (arith, eq_iff token j)))
          | inr q ↦ rw q
        ])
]

pub rotate_answer :
    (now : ℕ) (old_token new_token : String) (ttl : ℕ) (s : TokenStore)
    → (rotate now old_token new_token ttl s).0 ≡ view s now old_token
unfolding view rotate
rotate_answer now old_token new_token ttl s = ground arith

step-answer : (now : ℕ) (c : Call) (s : TokenStore) → (step now c s).0 ≡ answer now c (view s)
unfolding view step get
step-answer now (set_call token user_id ttl) s = refl
step-answer now (get_call token) s = ground arith
step-answer now (del_call token) s = refl
step-answer now (rotate_call old_token new_token ttl) s =
    rotate_answer now old_token new_token ttl s

step-view :
    (now t : ℕ) (c : Call) (s : TokenStore) (j : String)
    → IsWell s
    → now ≤ t
    → view (step now c s).1 t j ≡ after now c (view s) t j
unfolding step
step-view now t (set_call token user_id ttl) s j w h = view-set now t token user_id ttl s j w h
step-view now t (get_call token) s j w h = view-get now t token s j h
step-view now t (del_call token) s j w h = unfold view del in rw lookup-erase (ground arith)
step-view now t (rotate_call old_token new_token ttl) s j w h =
    view-rotate now t old_token new_token ttl s j

-- Every call on a store with distinct keys keeps them distinct, answers as the specification does,
-- and leaves from its instant on the ownership that the specification gives.
pub step_refines :
    (now t : ℕ) (c : Call) (s : TokenStore) (j : String)
    → IsWell s
    → now ≤ t
    → IsWell (step now c s).1
      × ((step now c s).0 ≡ answer now c (view s))
      × (view (step now c s).1 t j ≡ after now c (view s) t j)
step_refines now t c s j w h =
    (step-IsWell now c s w, step-answer now c s, step-view now t c s j w h)
