-- ===== src/Backtest/Tests.antt =====
-- Runs of one user, a replay's account, and the theorems about them at concrete inputs.
use fxcore.Prelude.{ℕ, ◌^◌, ◌≤◌, ◌≡◌, refl, none, String, List, [], ◌∷◌, arith}
use fxcore.Prelude.Int.{pos, wrap64, ◌*ℤ◌, ◌+ℤ◌, ◌-ℤ◌, quot}
use fxcore.Prelude.Float.{Fixed, fixed_float}
use fxcore.Prelude.Dict.{lookup, insert, erase}
use fxcore.Model.Decision.{DecisionAction}
use fxcore.Backtest.{Config, Run, RunState, BacktestTrade, World}
use fxcore.Backtest.Setup
use fxcore.Backtest.Control
use fxcore.Backtest.Control.{ok, panics}
use fxcore.Backtest.Control.Lock.{
  Call, start_call, pause_call, stop_call, delete_call, run, running_of, one_running,
}
use fxcore.Backtest.Control.Twice.{resume_twice}
use fxcore.Backtest.Account
use fxcore.Backtest.Account.{Scene}

abbrev config : Config Fixed
config = record {
  strategy_id = "";
  symbols = "BTC-USDT" ∷ [];
  cadence = pos 15;
  initial_balance = pos 10_000_000;
  leverage = pos 5;
  fee_bps = pos 0;
  slippage_bps = pos 0;
  fill_policy = "mid";
  start_time = pos 1;
  end_time = pos 9000;
}

abbrev empty : World Fixed
empty = record { runs = []; records = []; trades = [] }

abbrev calls : List (ℕ × Call Fixed)
calls =
    (1, start_call "a" "u1" config)
    ∷ (2, start_call "b" "u1" config)
    ∷ (3, pause_call "a")
    ∷ (4, start_call "b" "u1" config)
    ∷ (5, stop_call "b")
    ∷ (6, delete_call "b")
    ∷ []

one_running_example : running_of "u1" (run calls empty).runs ≤ 1
one_running_example = one_running "u1" calls empty (omega arith)

-- The run `a` is running.
abbrev one_run : World Fixed
one_run = record empty { runs = ("a", Setup.new_run "u1" config) ∷ [] }

abbrev both : World Fixed
both = (Control.start 2 "b" "u1" config (Control.pause 1 "a" one_run).1).1

second_starts : (Control.start 2 "b" "u1" config (Control.pause 1 "a" one_run).1).0 ≡ ok
unfolding Control.start Control.pause Control.get_run Control.sync_state Setup.cycle_seconds wrap64
    ◌*ℤ◌ lookup insert
second_starts = refl

resume_twice_example :
    ((Control.resume 3 "a" both).0 ≡ ok) × (2 ≤ running_of "u1" (Control.resume 3 "a" both).1.runs)
resume_twice_example =
    resume_twice "u1" "a" "b" 1 2 3 config one_run (Setup.new_run "u1" config)
      (unfold lookup in refl) refl refl refl second_starts

-- A cadence of 2^62 minutes has a length that wraps around to 0.
cadence_test :
    (Control.start 1 "a" "u1" (record config { cadence = pos (2 ^ 62) }) empty).0 ≡ panics
unfolding Control.start Setup.cycle_seconds wrap64 ◌*ℤ◌
cadence_test = refl

abbrev after_restart : World Fixed
after_restart = record empty {
  records = ("a", record (Setup.new_record 1 "a" "u1" config) { state = RunState.completed }) ∷ [];
}

abbrev action : String → DecisionAction Fixed
action kind = record {
  action = kind;
  symbol = "BTC-USDT";
  quantity = pos 10_000;
  leverage = pos 50_000;
  price = pos 0;
  stop_loss = pos 0;
  take_profit = pos 0;
  confidence = pos 0;
  reasoning = "";
  order_id = "";
  success = none;
  error = "";
}

abbrev scene : Scene Fixed
scene = record {
  run_id = "a";
  now = 7;
  symbol = "BTC-USDT";
  klines = record { high = pos 1_000_000; low = pos 1_000_000; close = pos 1_000_000 } ∷ [];
  cycle = 1;
}

abbrev account : Run Fixed × List (BacktestTrade Fixed)
account = (Setup.new_run "u1" config, [])

-- Opening takes the whole value of 100 from the balance of 1000, and closing at the same price, with
-- no fees, gives a fifth of it back.
margin_test :
    (Account.execute_actions scene
      (action "open_long" ∷ action "close_long" ∷ [])
      account).0.available
    ≡ pos 9_200_000
unfolding Account.execute_actions Account.open_position Account.close_position Account.fill_price
    ◌*ℤ◌ ◌+ℤ◌ ◌-ℤ◌ quot lookup insert erase
margin_test = refl

abbrev with_position : Run Fixed × List (BacktestTrade Fixed)
with_position = Account.execute_actions scene (action "open_short" ∷ []) account

-- A short position is closed at 95 % of its entry price: the liquidation earns 5.
short_test :
    (Account.liquidate_all "a" 8 2 "drawdown_guard" with_position).0.equity ≡ pos 10_050_000
unfolding Account.execute_actions Account.open_position Account.liquidate_all Account.fill_price
    ◌*ℤ◌ ◌+ℤ◌ ◌-ℤ◌ quot lookup insert erase
short_test = refl
