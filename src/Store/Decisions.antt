-- ===== src/Store/Decisions.antt =====
-- internal/store/decision_store.go: the records of the decisions and the snapshots of the equity, both
-- oldest first. The copies that the code hands out are values here.
pub mod Pages
use fxcore.Prelude.{
  ℕ, ◌+◌, String, str_eq, Bool, true, false, ◌&&◌, ◌||◌, not, Option, none, some, List, [], ◌∷◌,
  ◌++◌, if◌then◌else◌, reverse, ltb, length, take, drop,
}
use fxcore.Prelude.Dict.{Dict, lookup}
use fxcore.Prelude.Int.{ℤ, pos, negsuc, ◌+ℤ◌}
use fxcore.Model.Trader.{Trader}
use fxcore.Model.Decision.{DecisionRecord, EquitySnapshot}
use fxcore.Store.{Store}
use fxcore.Store.Positions.{owner_of, cached}

-- `out[offset:end]`, where a bound out of range panics.
abbrev pub page : {A : Type 0} → ℤ → ℤ → List A → Option (List A)
page offset (negsuc limit) out = none
page (negsuc offset) (pos limit) out = none
page (pos offset) (pos limit) out = some (take limit (drop offset out))

module _ {F : Type 0} where
  -- Called with a time that is set.
  unfoldable pub add_decision : String → DecisionRecord F → Store F → Store F
  add_decision fresh d s = record s {
    decisions = s.decisions ++ (record d { id = if str_eq d.id "" then fresh else d.id } ∷ []);
  }

  -- Called with no time set.
  unfoldable pub add_equity_snapshot : ℕ → String → EquitySnapshot F → Store F → Store F
  add_equity_snapshot now fresh e s = record s {
    equities =
        s.equities
        ++ (record e { id = if str_eq e.id "" then fresh else e.id; timestamp = now } ∷ []);
  }

  -- The loop of both listings, with its cache of owners, over the rows of which `trader_of` names the
  -- trader.
  unfoldable pub listed_from :
      {A : Type 0}
      → (A → String)
      → Dict (Trader F)
      → String
      → String
      → Dict String
      → List A
      → List A
  listed_from trader_of traders trader_id user_id owner [] = []
  listed_from trader_of traders trader_id user_id owner (a ∷ rows) =
      let (uid, owner') = cached traders (trader_of a) (lookup (trader_of a) owner) owner in
      let asked = str_eq trader_id "" && not (str_eq user_id "") in
      let rest =
        listed_from trader_of traders trader_id user_id (if asked then owner' else owner) rows in
      if (not (str_eq trader_id "") && not (str_eq (trader_of a) trader_id))
        || (asked && (not (str_eq uid "") && not (str_eq uid user_id)))
      then rest
      else a ∷ rest

  unfoldable pub list_decisions_by_trader :
      String → String → ℤ → ℤ → Store F → Option (List (DecisionRecord F))
  list_decisions_by_trader trader_id user_id offset limit s = page offset limit (
      listed_from (λ (d : DecisionRecord F). d.trader_id) s.traders trader_id user_id []
        (reverse s.decisions))

  unfoldable pub list_equity_by_trader : String → String → Store F → List (EquitySnapshot F)
  list_equity_by_trader trader_id user_id s =
      listed_from (λ (e : EquitySnapshot F). e.trader_id) s.traders trader_id user_id [] s.equities

  abbrev pub count_of : String → List (DecisionRecord F) → ℕ
  count_of trader_id [] = 0
  count_of trader_id (d ∷ ds) =
      (if str_eq trader_id "" || str_eq d.trader_id trader_id then 1 else 0) + count_of trader_id ds

  -- The user is not asked for.
  unfoldable pub count_decisions : String → String → Store F → ℕ
  count_decisions trader_id user_id s = count_of trader_id s.decisions

  abbrev pub first_of : String → List (DecisionRecord F) → Option (DecisionRecord F)
  first_of trader_id [] = none
  first_of trader_id (d ∷ ds) =
      if str_eq d.trader_id trader_id then some d else first_of trader_id ds

  unfoldable pub latest_decision_by_trader : String → Store F → Option (DecisionRecord F)
  latest_decision_by_trader trader_id s = first_of trader_id (reverse s.decisions)
