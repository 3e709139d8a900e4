-- ===== src/Store/Strategies.antt =====
-- internal/store/strategy_store.go: the strategies, of which one is in force for a user. A loop over
-- the map runs in the order of the list.
pub mod Active
use fxcore.Prelude.{
  ℕ, String, str_eq, Bool, true, false, ◌&&◌, ◌||◌, not, Option, none, some, List, [], ◌∷◌,
  if◌then◌else◌, is_some,
}
use fxcore.Prelude.Dict.{Dict, lookup, insert, erase}
use fxcore.Model.Strategy.{Strategy}
use fxcore.Store.{Store}

-- Whether a strategy is the user's: of a user, of nobody, or with no user asked for.
abbrev pub is_of : String → Strategy → Bool
is_of user_id st = str_eq user_id "" || (str_eq st.user_id "" || str_eq st.user_id user_id)

abbrev pub stamp : ℕ → String → Strategy → Strategy
stamp now fresh st = record st {
  id = if str_eq st.id "" then fresh else st.id;
  created_at = now;
  updated_at = now;
}

-- The loop of `ActivateStrategy`.
unfoldable pub deactivate : ℕ → String → String → Dict Strategy → Dict Strategy
deactivate now user_id id [] = []
deactivate now user_id id ((k, st) ∷ m) =
    (
      k,
      if not (str_eq st.id id) && (st.is_active && is_of user_id st)
          then record st { is_active = false; updated_at = now }
          else st,
    )
    ∷ deactivate now user_id id m

abbrev pub activated : ℕ → Strategy → Strategy
activated now st = record st { is_active = true; updated_at = now }

abbrev pub of_user : String → Dict Strategy → List Strategy
of_user user_id [] = []
of_user user_id ((k, st) ∷ m) =
    let rest = of_user user_id m in
    if not (str_eq user_id "") && not (str_eq st.user_id user_id) then rest else st ∷ rest

abbrev pub active_in : String → Dict Strategy → Option Strategy
active_in user_id [] = none
active_in user_id ((k, st) ∷ m) =
    if st.is_active && is_of user_id st then some st else active_in user_id m

module _ {F : Type 0} where
  unfoldable pub create_strategy : ℕ → String → Strategy → Store F → Strategy × Store F
  create_strategy now fresh st s =
      let st' = stamp now fresh st in
      (st', record s { strategies = insert st'.id st' s.strategies })

  unfoldable pub get_strategy : String → Store F → Option Strategy
  get_strategy id s = lookup id s.strategies

  unfoldable pub list_strategies : String → Store F → List Strategy
  list_strategies user_id s = of_user user_id s.strategies

  unfoldable pub get_active_strategy : String → Store F → Option Strategy
  get_active_strategy user_id s = active_in user_id s.strategies

  unfoldable pub update_strategy : ℕ → Strategy → Store F → Store F
  update_strategy now st s = record s {
    strategies = insert st.id (record st { updated_at = now }) s.strategies;
  }

  unfoldable pub delete_strategy : String → Store F → Bool × Store F
  delete_strategy id s =
      if is_some (lookup id s.strategies)
      then (true, record s { strategies = erase id s.strategies })
      else (false, s)

  abbrev pub activation :
      ℕ → String → String → Option Strategy → Store F → Option Strategy × Store F
  activation now user_id id none s = (none, s)
  activation now user_id id (some target) s = (
    some (activated now target),
    record s {
      strategies = insert id (activated now target) (deactivate now user_id id s.strategies);
    },
  )

  -- The target is the stored value itself; the loop leaves it alone, since its id is `id`.
  unfoldable pub activate_strategy : ℕ → String → String → Store F → Option Strategy × Store F
  activate_strategy now user_id id s = activation now user_id id (lookup id s.strategies) s
