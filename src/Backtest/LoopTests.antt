-- ===== src/Backtest/LoopTests.antt =====
-- A run of one symbol with a window of two and a half hours, and the theorem about it.
use fxcore.Prelude.{ℕ, suc, ◌≡◌, refl, false, true, none, some, String, [], ◌∷◌, arith, length}
use fxcore.Prelude.Int.{pos, pos_part, ◌+ℤ◌, ◌-ℤ◌, ◌*ℤ◌, quot, wrap64}
use fxcore.Prelude.Float.{Fixed, fixed_float}
use fxcore.Model.Chat.{failed}
use fxcore.Backtest.{Config}
use fxcore.Backtest.Setup
use fxcore.Backtest.Loop
use fxcore.Backtest.Replaying
use fxcore.Backtest.Loop.{Beat}
use fxcore.Backtest.Replaying.{Replay}
use fxcore.Backtest.Loop.Ends.{Ended, run_ends}

abbrev config : Config Fixed
config = record {
  strategy_id = "";
  symbols = "BTC-USDT" ∷ [];
  cadence = pos 15;
  initial_balance = pos 10_000_000;
  leverage = pos 5;
  fee_bps = pos 0;
  slippage_bps = pos 0;
  fill_policy = "mid";
  start_time = pos 1;
  end_time = pos 9000;
}

-- No model is set up, so nothing is traded.
abbrev beats : ℕ → Beat Fixed String
beats i = record {
  cancelled = false;
  now = i;
  models = [];
  get_model = λ id. none;
  klines = λ symbol. some [];
  chat = λ m prompt. failed "";
  prompt = λ r symbol ks. "";
  json = record { array = λ t. none; object = λ t. none };
  to_json = λ acts. "[]";
  payload = λ d. "";
  error_text = λ x. "";
  failure = λ symbol. "";
}

run_ends_example : Ended (
    Loop.turns beats "r1" 0
      (suc (pos_part (Setup.new_run "u1" config).total_cycles))
      (Replaying.begun (Setup.new_run "u1" config) none []))
run_ends_example =
    run_ends beats "r1" "u1" config none [] 1 14 9000 (λ j. refl) refl refl refl (omega arith)
      (omega arith)

-- Ten windows, and a snapshot for each.
turns_test :
    let s = Loop.turns beats "r1" 0 11 (Replaying.begun (Setup.new_run "u1" config) none []) in
    (s.over ≡ true) × (length s.equities ≡ 10)
unfolding Loop.turns Loop.turn Loop.on_cycle Loop.on_symbols Loop.pick_model Replaying.snapshot
    Loop.closed_off Replaying.finish ◌+ℤ◌ ◌-ℤ◌ ◌*ℤ◌ quot Setup.cycle_seconds Setup.cycles_of wrap64
turns_test = (refl, refl)
