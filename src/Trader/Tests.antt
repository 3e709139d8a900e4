-- ===== src/Trader/Tests.antt =====
-- The life of two traders, and the theorems about it at concrete inputs.
use fxcore.Prelude.{
  ℕ, ◌≡◌, ◌≢◌, refl, false, true, none, some, String, str_eq, eq_iff, List, [], ◌∷◌, arith, inl,
  inr, Bool-cases,
}
use fxcore.Prelude.Int.{pos}
use fxcore.Prelude.Dict.{lookup}
use fxcore.Prelude.Float.{Fixed, fixed_float}
use fxcore.Model.Trader.{Trader, Status, Position}
use fxcore.Middleware.ApiError.{ApiError}
use fxcore.Store.{Store}
use fxcore.Store.Tests.{two_traders, trader, position}
use fxcore.Store.Traders.{get_trader}
use fxcore.Store.Positions
use fxcore.Trader.Runners.{Runners}
use fxcore.Trader.Service
use fxcore.Trader.Service.{World}
use fxcore.Trader.Service.Answers.{Answer, transition-Answer}
use fxcore.Trader.Service.Mounted.{
  Call, start_call, pause_call, stop_call, turn_call, IsMounted, run, run-IsMounted,
}
use fxcore.Trader.Service.Requests
use fxcore.Trader.Service.Requests.Entry.{IsAcceptable, new_trader, create_lem}
use fxcore.Trader.Service.Closing
use fxcore.Trader.Service.Closing.Outcome.{Expected, close_lem}

-- The trader `t2` runs, and has a loop.
abbrev loops : Runners
loops = ("t2", record { trader_id = "t2" }) ∷ []

abbrev world : World Fixed
world = record { store = two_traders; engine = some loops }

transition-Answer_example :
    let (answer, s') = Service.transition 9 "t1" Status.paused "u1" two_traders in
    Answer 9 "t1" Status.paused "u1" two_traders answer s'
transition-Answer_example = transition-Answer 9 "t1" Status.paused "u1" two_traders

world-IsMounted : IsMounted world
unfolding lookup
world-IsMounted id = elim (Bool-cases (str_eq "t2" id)) [
  | inl e ↦
      let other : str_eq "t1" id ≡ false =
        ground (arith, eq_iff "t1" id, eq_iff "t2" id, eq_iff "t1" "t2") in
      rw (e, other) refl
  | inr e ↦ rw e (elim (Bool-cases (str_eq "t1" id)) [ inl q ↦ rw q refl | inr q ↦ rw q refl ])
]

abbrev calls : List (ℕ × Call)
calls =
    (1, start_call "t1" "u1")
    ∷ (2, turn_call true "t1")
    ∷ (3, pause_call "t1" "u2")
    ∷ (4, pause_call "t1" "u1")
    ∷ (5, stop_call "t2" "u2")
    ∷ (6, turn_call false "t2")
    ∷ []

t1_is_idle :
    (t : Trader Fixed) → lookup "t1" two_traders.traders ≡ some t → t.status ≢ Status.paused
unfolding lookup
t1_is_idle t e same = cc

run-IsMounted_example : IsMounted (run calls world)
run-IsMounted_example =
    run-IsMounted calls world world-IsMounted
      (λ t e. t1_is_idle t e, (tt, (tt, (tt, (tt, (tt, tt))))))

abbrev paused_store : Store Fixed
paused_store = record two_traders { traders = ("t2", trader "t2" "u2" Status.paused) ∷ [] }

abbrev gain : Position Fixed
gain = Positions.closed 9 (pos 5) (position "p1" "t1")

close_lem_example :
    Expected 9 "u1" "p1"
      (pos 5)
      two_traders
      (Positions.get_position "p1" two_traders)
      (Closing.close_position 9 "u1" "p1" (pos 5) two_traders)
close_lem_example = close_lem 9 "u1" "p1" (pos 5) two_traders refl refl

abbrev request : Requests.CreateRequest Fixed
request = record {
  name = "n";
  exchange = "okx";
  model_config = record { provider = "p"; model_id = "m1"; parameters = "" };
  strategy_id = "s";
  risk_config = (trader "" "" Status.idle).risk_config;
  schedule = none;
}

create_lem_example :
    let (a, s') = Requests.create 5 "t3" "u1" request two_traders in
    let t = new_trader 5 "t3" "u1" request in
    ((e : ApiError)
      → Requests.create_error request two_traders ≡ some e
      → (a ≡ Requests.err e) × (s' ≡ two_traders))
    × (Requests.create_error request two_traders ≡ none
        → (a ≡ Requests.ok t)
          × (get_trader "t3" s' ≡ some t)
          × ((j : String) → j ≢ "t3" → get_trader j s' ≡ get_trader j two_traders)
          × IsAcceptable request two_traders)
create_lem_example = create_lem 5 "t3" "u1" request two_traders
