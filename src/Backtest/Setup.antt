-- ===== src/Backtest/Setup.antt =====
-- The configuration, the runs and the records with which internal/backtest/engine.go begins.
use fxcore.Prelude.{ℕ, suc, ◌*◌, Bool, true, false, ◌||◌, String, str_eq, [], if◌then◌else◌, length}
use fxcore.Prelude.Int.{ℤ, pos, negsuc, wrap64, ◌+ℤ◌, ◌-ℤ◌, ◌*ℤ◌, quot, leb_ℤ}
use fxcore.Prelude.Float.{Float64}
use fxcore.Backtest.{RunState, Config, Run, BacktestRun}

-- Go's division of integers.
abbrev div_ℤ : ℤ → ℤ → ℤ
div_ℤ a (pos b) = quot a b
div_ℤ a (negsuc b) = pos 0 -ℤ quot a (suc b)

-- `int64(cfg.Cadence*60)`, where an `int` has 64 bits.
unfoldable pub cycle_seconds : ℤ → ℤ
cycle_seconds cadence = wrap64 (cadence *ℤ pos 60)

-- `((cfg.EndTime - cfg.StartTime) / int64(cfg.Cadence*60)) + 1`, by a divisor that is not 0.
unfoldable pub cycles_of : ℤ → ℤ → ℤ → ℤ
cycles_of start_time end_time cadence =
    wrap64 (div_ℤ (wrap64 (end_time -ℤ start_time)) (cycle_seconds cadence) +ℤ pos 1)

module _ {F : Type 0} ⦃f : Float64 F⦄ where
  abbrev nil : F
  nil = f.dec 0 0

  -- The window: thirty days up to now if either end is missing. The clock stands for `now.Unix()`.
  abbrev with_window : ℕ → Config F → Config F
  with_window now c =
      if leb_ℤ c.start_time (pos 0) || leb_ℤ c.end_time (pos 0)
      then record c { end_time = pos now; start_time = pos now -ℤ pos (30 * 86_400) }
      else c

  abbrev pub defaulted : ℕ → Config F → Config F
  defaulted now c =
      let d : Config F = record c {
        initial_balance = if f.le c.initial_balance nil then f.dec 10_000 0 else c.initial_balance;
        leverage = if leb_ℤ c.leverage (pos 0) then pos 5 else c.leverage;
        fee_bps = if f.lt c.fee_bps nil then f.dec 5 0 else c.fee_bps;
        slippage_bps = if f.lt c.slippage_bps nil then f.dec 1 0 else c.slippage_bps;
        fill_policy = if str_eq c.fill_policy "" then "next_open" else c.fill_policy;
      } in
      with_window now d

  abbrev pub with_cadence : Config F → Config F
  with_cadence c = record c { cadence = if leb_ℤ c.cadence (pos 0) then pos 15 else c.cadence }

  abbrev pub new_run : String → Config F → Run F
  new_run user_id c = record {
    user_id = user_id;
    state = RunState.running;
    cfg = c;
    has_cancel = true;
    cycle = 0;
    total_cycles = cycles_of c.start_time c.end_time c.cadence;
    equity = c.initial_balance;
    available = c.initial_balance;
    peak_equity = c.initial_balance;
    positions = [];
    liquidated = false;
    last_error = "";
  }

  abbrev pub new_record : ℕ → String → String → Config F → BacktestRun F
  new_record now run_id user_id c = record {
    run_id = run_id;
    user_id = user_id;
    config = c;
    state = RunState.running;
    label = "";
    symbol_count = length c.symbols;
    progress_pct = nil;
    equity_last = nil;
    max_drawdown_pct = nil;
    liquidated = false;
    last_error = "";
    created_at = now;
    updated_at = now;
  }

  -- A run that this process does not hold, from the store's record of it.
  abbrev pub blank : RunState → Config F → F → Bool → String → Run F
  blank state c equity liquidated last_error = record {
    user_id = "";
    state = state;
    cfg = c;
    has_cancel = false;
    cycle = 0;
    total_cycles = pos 0;
    equity = equity;
    available = nil;
    peak_equity = nil;
    positions = [];
    liquidated = liquidated;
    last_error = last_error;
  }

  abbrev pub no_config : Config F
  no_config = record {
    strategy_id = "";
    symbols = [];
    cadence = pos 0;
    initial_balance = nil;
    leverage = pos 0;
    fee_bps = nil;
    slippage_bps = nil;
    fill_policy = "";
    start_time = pos 0;
    end_time = pos 0;
  }
