-- ===== src/Store/RecordTests.antt =====
-- Two strategies and two decisions, and the theorems about them at concrete inputs.
use fxcore.Prelude.{
  ◌≡◌, ◌≤◌, refl, false, true, none, some, str_eq, String, [], ◌∷◌, length, take, drop,
}
use mathlib.Core.Option.{map as map_option}
use fxcore.Prelude.Dict.{lookup}
use fxcore.Prelude.Int.{pos}
use fxcore.Prelude.Float.{Fixed}
use fxcore.Model.Decision.{DecisionRecord}
use fxcore.Model.Strategy.{Strategy}
use fxcore.Store.{Store}
use fxcore.Store.Tests.{two_traders}
use fxcore.Store.Positions.{owner_of}
use fxcore.Store.Strategies
use fxcore.Store.Strategies.Active.{rested, activate_lem}
use fxcore.Store.Decisions
use fxcore.Store.Decisions.Pages.{shown, decision_total}

abbrev strategy : String → Strategy
strategy id = record {
  id = id;
  user_id = "u1";
  name = "";
  description = "";
  is_active = str_eq id "s1";
  is_default = false;
  is_public = false;
  config = "{}";
  created_at = 0;
  updated_at = 0;
}

abbrev decided : String → DecisionRecord Fixed
decided trader_id = record {
  id = "";
  trader_id = trader_id;
  cycle_number = pos 0;
  timestamp = 1;
  system_prompt = "";
  input_prompt = "";
  cot_trace = "";
  decision_json = "";
  raw_response = "";
  candidate_coins = none;
  decisions = [];
  execution_log = none;
  success = true;
  error_message = "";
  ai_request_duration_ms = pos 0;
}

abbrev recorded : Store Fixed
recorded = record two_traders {
  strategies = ("s1", strategy "s1") ∷ ("s2", strategy "s2") ∷ [];
  decisions = decided "t1" ∷ decided "t2" ∷ [];
}

activate_lem_example :
    let s' = (Strategies.activate_strategy 9 "u1" "s2" recorded).1 in
    (Strategies.get_active_strategy "u1" s' ≡ some (Strategies.activated 9 (strategy "s2")))
    × ((j : String)
        → str_eq j "s2" ≡ false
        → Strategies.get_strategy j s'
          ≡ map_option (rested 9 "u1") (Strategies.get_strategy j recorded))
activate_lem_example =
    activate_lem 9 "u1" "s2" recorded (strategy "s2") (refl, (refl, tt))
      (unfold Strategies.get_strategy lookup in refl) refl

decision_total_example :
    (Decisions.list_decisions_by_trader "t1" "u1" (pos 0) (pos 1) recorded
      ≡ some (take 1 (drop 0 (shown "t1" "u1" recorded))))
    × ((str_eq "t1" "" ≡ false)
        → Decisions.count_decisions "t1" "u1" recorded ≡ length (shown "t1" "u1" recorded))
    × (Decisions.count_decisions "" "u1" recorded ≡ length recorded.decisions)
    × (length (shown "" "u1" recorded) ≤ Decisions.count_decisions "" "u1" recorded)
decision_total_example = decision_total "t1" "u1" 0 1 recorded

-- The total counts a decision of another user's trader, which is not shown.
total_test :
    (Decisions.count_decisions "" "u1" recorded ≡ 2) × (length (shown "" "u1" recorded) ≡ 1)
unfolding Decisions.count_decisions owner_of lookup
total_test = (refl, refl)
