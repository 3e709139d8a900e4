-- ===== src/Backtest/Replaying.antt =====
-- internal/backtest/replay.go: a run in its loop, with the record that the store has of it; its
-- snapshots, and how it is written and ended.
use fxcore.Prelude.{
  ℕ, ◌-◌, ◌%◌, Bool, true, false, ◌&&◌, ◌||◌, Option, none, some, String, str_eq, List, [], ◌∷◌,
  ◌++◌, if◌then◌else◌, ltb, ◌==◌,
}
use fxcore.Prelude.Int.{ℤ}
use fxcore.Prelude.Float.{Float64}
use fxcore.Prelude.Dict.{Dict}
use fxcore.Backtest.{RunState, BtPosition, Run, BacktestRun, BacktestTrade}
use fxcore.Backtest.Control.{synced_record}

-- `model.BacktestEquity`
pub record BacktestEquity (F : Type 0) : Type 0 where
  pub run_id : String
  pub timestamp : ℤ
  pub equity : F
  pub available : F
  pub pnl : F
  pub pnl_pct : F
  pub drawdown_pct : F
  pub cycle : ℕ

-- `model.BacktestDecision`
pub record BacktestDecision : Type 0 where
  pub run_id : String
  pub cycle : ℕ
  pub payload : String

-- A run in its loop. `over` says that the loop has returned; `last_saved` is none for the zero time.
pub record Replay (F : Type 0) : Type 0 where
  pub run : Run F
  pub saved : Option (BacktestRun F)
  pub trades : List (BacktestTrade F)
  pub equities : List (BacktestEquity F)
  pub decisions : List BacktestDecision
  pub window_start : ℤ
  pub last_saved : Option ℕ
  pub over : Bool

-- Every tenth cycle, or more than five seconds after the last time.
abbrev pub is_due : ℕ → ℕ → Option ℕ → Bool
is_due cycle now none = true
is_due cycle now (some last) = cycle % 10 == 0 || ltb 5_000_000_000 (now - last)

module _ {F : Type 0} ⦃f : Float64 F⦄ where
  abbrev nil : F
  nil = f.dec 0 0

  -- `for _, pos := range r.positions`: one percent of each entry value, whatever the side.
  abbrev pub unrealized_of : F → Dict (BtPosition F) → F
  unrealized_of sum [] = sum
  unrealized_of sum ((k, p) ∷ ps) =
      unrealized_of (f.add sum (f.mul p.qty (f.sub (f.mul p.entry (f.dec 101 2)) p.entry))) ps

  abbrev pub drawdown_of : F → F → F
  drawdown_of peak total =
      if f.lt nil peak && f.lt total peak
      then f.mul (f.div (f.sub peak total) peak) (f.dec 100 0)
      else nil

  -- The drawdown is measured from the peak before this cycle.
  unfoldable pub snapshot : String → ℕ → ℤ → Replay F → Replay F
  snapshot run_id cycle ts s =
      let r = s.run in
      let total = f.add r.equity (unrealized_of nil r.positions) in
      let gain = f.sub total r.cfg.initial_balance in
      let e : BacktestEquity F = record {
        run_id = run_id;
        timestamp = ts;
        equity = total;
        available = r.available;
        pnl = gain;
        pnl_pct = f.mul (f.div gain r.cfg.initial_balance) (f.dec 100 0);
        drawdown_pct = drawdown_of r.peak_equity total;
        cycle = cycle;
      } in
      record s {
        run = record r { peak_equity = if f.lt r.peak_equity total then total else r.peak_equity };
        equities = s.equities ++ (e ∷ []);
      }

  abbrev pub written : ℕ → Run F → Option (BacktestRun F) → Option (BacktestRun F)
  written now r none = none
  written now r (some b) = some (synced_record now (some r) b)

  -- `syncState`, for a run that the engine holds.
  abbrev pub synced : ℕ → Replay F → Replay F
  synced now s = record s { saved = written now s.run s.saved }

  -- `finish`, after which the loop returns.
  unfoldable pub finish : ℕ → RunState → String → Replay F → Replay F
  finish now state error s =
      record (synced now (record s {
        run = record (s.run) {
          state = state;
          last_error = if str_eq error "" then s.run.last_error else error;
        };
      })) { over = true }

  -- The variables with which the loop begins.
  abbrev pub begun : Run F → Option (BacktestRun F) → List (BacktestTrade F) → Replay F
  begun r saved trades = record {
    run = r;
    saved = saved;
    trades = trades;
    equities = [];
    decisions = [];
    window_start = r.cfg.start_time;
    last_saved = none;
    over = false;
  }
