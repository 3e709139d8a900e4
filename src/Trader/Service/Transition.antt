-- ===== src/Trader/Service/Transition.antt =====
-- What a change of state does to the store, on every branch.
use fxcore.Prelude.{
  ℕ, ◌≡◌, ◌⊎◌, refl, inl, inr, String, Bool, true, false, ◌&&◌, Option, none, some, arith,
  if◌then◌else◌, Bool-cases, Option-cases,
}
use fxcore.Prelude.Dict.{lookup, insert}
use fxcore.Model.Trader.{Status, same_status, Trader}
use fxcore.Middleware.ApiError.{ApiError, not_found}
use fxcore.Store.{Store}
use fxcore.Store.Traders.{done, failed, may_use, with_trader}
use fxcore.Trader.Service.{
  ServiceError, not_owned, already_running, already_there, illegal_transition, transitions,
  with_status, move, refused, transition,
}

not_from_itself : (a b : Status) → transitions a b ≡ true → same_status a b ≡ false
not_from_itself Status.idle Status.idle h = cc
not_from_itself Status.idle b h = ground arith
not_from_itself Status.running b h = ground arith
not_from_itself Status.paused b h = ground arith
not_from_itself Status.stopped b h = ground arith
not_from_itself Status.error b h = ground arith

module _ {F : Type 0} where
  -- The store with the trader `t` moved.
  abbrev pub moved_in : ℕ → String → Status → Trader F → Store F → Store F
  moved_in now id to t s = record s {
    traders = insert id (record (with_status to t) { updated_at = now }) s.traders;
  }

  -- The trader may be moved: the user owns it, or no one does, and the table has the move.
  abbrev pub permits : Status → String → Trader F → Bool
  permits to user_id t = may_use user_id t.user_id && transitions t.status to

  -- Why a trader may not be moved.
  abbrev pub refusal : Status → String → Trader F → ServiceError
  refusal to user_id t =
      if may_use user_id t.user_id
      then (if same_status t.status to
          then (if same_status to Status.running then already_running else already_there)
          else illegal_transition)
      else not_owned

  move-eq :
      (to : Status) (user_id : String) (t : Trader F)
      → move to user_id t
        ≡ (if permits to user_id t then done (with_status to t) else failed (refusal to user_id t))
  unfolding move
  move-eq to user_id t = elim (Bool-cases (may_use user_id t.user_id)) [
    | inr e ↦ rw e refl
    | inl e ↦ elim (Bool-cases (transitions t.status to)) [
      | inl p ↦ rw (e, p, not_from_itself t.status to p) refl
      | inr p ↦ elim (Bool-cases (same_status t.status to)) [
        | inl q ↦ rw (e, p, q) refl
        | inr q ↦ rw (e, p, q) refl
      ]
    ]
  ]

  -- What a move of the trader that the id finds should do.
  abbrev pub outcome :
      ℕ → String → Status → String → Store F → Option (Trader F) → Option ApiError × Store F
  outcome now id to user_id s none = (some (not_found "trader not found"), s)
  outcome now id to user_id s (some t) =
      if permits to user_id t
      then (none, moved_in now id to t s)
      else (some (refused to (refusal to user_id t)), s)

  -- A move succeeds just if there is such a trader, the user may use it and the table has the move;
  -- it then sets the status and the time of that trader. If not, nothing changes, and the error says
  -- which of the tests failed.
  pub transition_lem :
      (now : ℕ) (id : String) (to : Status) (user_id : String) (s : Store F)
      → transition now id to user_id s ≡ outcome now id to user_id s (lookup id s.traders)
  unfolding transition with_trader
  transition_lem now id to user_id s = elim (Option-cases (lookup id s.traders)) [
    | inl p ↦ rw (p, with_trader) refl
    | inr (t, p) ↦ elim (Bool-cases (permits to user_id t)) [
      | inl q ↦ rw (p, with_trader) (rw (move-eq, q) refl)
      | inr q ↦ rw (p, with_trader) (rw (move-eq, q) refl)
    ]
  ]

  -- The two ways in which a move ends.
  pub transition-cases :
      (now : ℕ) (id : String) (to : Status) (user_id : String) (s : Store F)
      → ((e : ApiError) × (transition now id to user_id s ≡ (some e, s)))
        ⊎ ((t : Trader F) × (lookup id s.traders ≡ some t)
            × (permits to user_id t ≡ true)
            × (transition now id to user_id s ≡ (none, moved_in now id to t s)))
  transition-cases now id to user_id s = elim (Option-cases (lookup id s.traders)) [
    | inl p ↦ inl (not_found "trader not found", rw (transition_lem, p) refl)
    | inr (t, p) ↦ elim (Bool-cases (permits to user_id t)) [
      | inl q ↦ inr (t, p, q, rw (transition_lem, p) (rw q refl))
      | inr q ↦ inl (refused to (refusal to user_id t), rw (transition_lem, p) (rw q refl))
    ]
  ]
