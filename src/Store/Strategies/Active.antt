-- ===== src/Store/Strategies/Active.antt =====
-- Which strategy is in force, of internal/store/strategy_store.go.
use fxcore.Prelude.{
  ℕ, ◌≡◌, refl, String, str_eq, eq_iff, true, false, ◌&&◌, some, [], ◌∷◌, arith, if◌then◌else◌,
}
use mathlib.Core.Option.{map as map_option}
use fxcore.Prelude.Dict.{Dict, lookup, insert}
use fxcore.Prelude.Dict.Laws.{lookup-insert}
use fxcore.Model.Strategy.{Strategy}
use fxcore.Store.{Store}
use fxcore.Store.Strategies.{
  is_of, deactivate, activated, active_in, activate_strategy, get_strategy, get_active_strategy,
}

-- Each strategy stands under its id.
abbrev pub IsFiled : Dict Strategy → Type 0
IsFiled [] = Unit
IsFiled ((k, st) ∷ m) = (st.id ≡ k) × IsFiled m

-- What the activation of another strategy by the user makes of one.
abbrev pub rested : ℕ → String → Strategy → Strategy
rested now user_id st =
    if st.is_active && is_of user_id st
    then record st { is_active = false; updated_at = now }
    else st

lookup-deactivate :
    (now : ℕ) (user_id id j : String) (m : Dict Strategy)
    → IsFiled m
    → str_eq j id ≡ false
    → lookup j (deactivate now user_id id m) ≡ map_option (rested now user_id) (lookup j m)
unfolding lookup deactivate map_option
lookup-deactivate now user_id id j [] h n = refl
lookup-deactivate now user_id id j ((k, st) ∷ m) h n =
    ground
      (arith, lookup-deactivate now user_id id j m h.1 n, eq_iff k j, eq_iff st.id id, eq_iff j id)

active-insert :
    (now : ℕ) (user_id id : String) (st : Strategy) (m : Dict Strategy)
    → IsFiled m
    → st.is_active && is_of user_id st ≡ true
    → active_in user_id (insert id st (deactivate now user_id id m)) ≡ some st
unfolding insert deactivate
active-insert now user_id id st [] h on = ground arith
active-insert now user_id id st ((k, r) ∷ m) h on =
    ground (arith, active-insert now user_id id st m h.1 on, eq_iff k id, eq_iff r.id id)

module _ {F : Type 0} where
  -- A strategy that a user activates is the one in force for that user, whatever was in force before.
  -- Every other strategy that was in force for the user no longer is, and the rest stay as they are.
  pub activate_lem :
      (now : ℕ) (user_id id : String) (s : Store F) (target : Strategy)
      → IsFiled s.strategies
      → get_strategy id s ≡ some target
      → is_of user_id target ≡ true
      → let s' = (activate_strategy now user_id id s).1 in
        (get_active_strategy user_id s' ≡ some (activated now target))
        × ((j : String)
            → str_eq j id ≡ false
            → get_strategy j s' ≡ map_option (rested now user_id) (get_strategy j s))
  unfolding get_strategy activate_strategy get_active_strategy
  activate_lem now user_id id s target filed found own = rw found (
    active-insert now user_id id (activated now target) s.strategies filed (ground arith),
    λ j n. ground (
      arith,
      lookup-insert id j (activated now target) (deactivate now user_id id s.strategies),
      lookup-deactivate now user_id id j s.strategies filed n,
      eq_iff id j,
      eq_iff j id,
    ),
  )
