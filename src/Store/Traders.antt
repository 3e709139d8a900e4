-- ===== src/Store/Traders.antt =====
-- The traders of internal/store/store.go. `WithTrader` is the one way in for a change of state: it
-- reads, changes a copy and writes back under one lock.
pub mod Atomic
use fxcore.Prelude.{
  ℕ, ◌+◌, String, str_eq, Bool, true, false, ◌&&◌, ◌||◌, not, Option, none, some, List, [], ◌∷◌,
  if◌then◌else◌, map,
}
use fxcore.Prelude.Dict.{Dict, lookup, insert}
use fxcore.Model.Trader.{Trader, Position}
use fxcore.Model.User.{AiModel}
use fxcore.Store.{Store}

-- The answer of a callback: the changed copy, or an error of the caller's own.
pub data Mutation (E T : Type 0) : Type 0 where
  done : T → Mutation E T
  failed : E → Mutation E T

-- The answer of `WithTrader`: the stored copy, `ErrNotFound`, or the callback's error.
pub data Stored (E T : Type 0) : Type 0 where
  stored : T → Stored E T
  missing : Stored E T
  rejected : E → Stored E T

-- `deletedAt == nil`
abbrev alive : Option AiModel → Option AiModel
alive none = none
alive (some m) = elim m.deleted_at [ none ↦ some m | some t ↦ none ]

-- `userID == "" || owner == "" || owner == userID`, the negation of the refusing test.
abbrev pub may_use : String → String → Bool
may_use user_id owner = str_eq user_id "" || (str_eq owner "" || str_eq owner user_id)

module _ {F : Type 0} where
  pub get_model : String → Store F → Option AiModel
  get_model id s = alive (lookup id s.models)

  abbrev stamp : ℕ → String → Trader F → Trader F
  stamp now fresh t = record t {
    id = if str_eq t.id "" then fresh else t.id;
    created_at = now;
    updated_at = now;
  }

  unfoldable pub create_trader : ℕ → String → Trader F → Store F → Trader F × Store F
  create_trader now fresh t s =
      let t' = stamp now fresh t in (t', record s { traders = insert t'.id t' s.traders })

  unfoldable pub get_trader : String → Store F → Option (Trader F)
  get_trader id s = lookup id s.traders

  abbrev listed : String → Dict (Trader F) → List (Trader F)
  listed user_id [] = []
  listed user_id ((k, t) ∷ m) =
      if not (str_eq user_id "") && not (str_eq t.user_id user_id)
      then listed user_id m
      else t ∷ listed user_id m

  pub list_traders : String → Store F → List (Trader F)
  list_traders user_id s = listed user_id s.traders

  pub update_trader : ℕ → Trader F → Store F → Store F
  update_trader now t s = record s {
    traders = insert t.id (record t { updated_at = now }) s.traders;
  }

  abbrev pub written :
      {E : Type 0} → ℕ → String → Mutation E (Trader F) → Store F → Stored E (Trader F) × Store F
  written now id (failed e) s = (rejected e, s)
  written now id (done t) s =
      let t' : Trader F = record t { updated_at = now } in
      (stored t', record s { traders = insert id t' s.traders })

  unfoldable pub with_trader :
      {E : Type 0}
      → ℕ
      → String
      → (Trader F → Mutation E (Trader F))
      → Store F
      → Stored E (Trader F) × Store F
  with_trader now id mutate s = elim (lookup id s.traders) [
    | none ↦ (missing, s)
    | some t ↦ written now id (mutate t) s
  ]

  -- The callback is handed the positions of every trader, in the order in which they were opened.
  unfoldable pub with_trader_and_positions :
      {E : Type 0}
      → ℕ
      → String
      → (Trader F → List (Position F) → Mutation E (Trader F))
      → Store F
      → Stored E (Trader F) × Store F
  with_trader_and_positions now id mutate s = elim (lookup id s.traders) [
    | none ↦ (missing, s)
    | some t ↦ written now id (mutate t s.positions) s
  ]
