-- ===== src/Backtest/Control.antt =====
-- internal/backtest/engine.go: starting, pausing, resuming, stopping and deleting runs. The clock and
-- the new run's id are arguments.
pub mod Lock
pub mod Twice
pub mod Restart
use fxcore.Prelude.{
  ℕ, ◌+◌, ◌*◌, Bool, true, false, ◌&&◌, ◌||◌, not, Option, none, some, String, str_eq, append, List,
  [], ◌∷◌, if◌then◌else◌, length, select, is_some,
}
use fxcore.Prelude.Int.{ℤ, pos, eq_ℤ, pos_part, neg_part, ◌+ℤ◌, ◌-ℤ◌, ◌*ℤ◌, quot, ltb_ℤ, leb_ℤ}
use fxcore.Prelude.Float.{Float64}
use fxcore.Prelude.Dict.{Dict, lookup, insert, erase}
use fxcore.Middleware.ApiError.{ApiError, bad_request, backtest_lock, backtest_not_found}
use fxcore.Backtest.Setup.{
  defaulted, with_cadence, cycle_seconds, new_run, new_record, blank, no_config,
}
use fxcore.Backtest.{
  RunState, is_running, is_paused, is_stopped, is_final, Config, Run, BacktestRun, World,
}

-- A call ends well, with an error, or in a panic.
pub data Outcome : Type 0 where
  ok : Outcome
  err : ApiError → Outcome
  panics : Outcome

abbrev pub run_not_found : Outcome
run_not_found = err (backtest_not_found "run not found")

abbrev state_name : RunState → String
state_name RunState.created = "created"
state_name RunState.running = "running"
state_name RunState.paused = "paused"
state_name RunState.stopped = "stopped"
state_name RunState.completed = "completed"
state_name RunState.failed = "failed"
state_name RunState.liquidated = "liquidated"

abbrev named : String → RunState → String
named text state = append text (append (state_name state) ")")

module _ {F : Type 0} where
  -- The lock of one user: an empty user id stands for every user.
  abbrev pub conflicts : String → Run F → Bool
  conflicts user_id r =
      is_running r.state && (str_eq user_id "" || (str_eq r.user_id "" || str_eq r.user_id user_id))

  abbrev pub is_locked : String → Dict (Run F) → Bool
  is_locked user_id [] = false
  is_locked user_id ((k, r) ∷ rs) = conflicts user_id r || is_locked user_id rs

module _ {F : Type 0} ⦃f : Float64 F⦄ where
  abbrev nil : F
  nil = f.dec 0 0

  abbrev pub entered : ℕ → String → String → Config F → World F → World F
  entered now run_id user_id c w = record w {
    runs = insert run_id (new_run user_id c) w.runs;
    records = insert run_id (new_record now run_id user_id c) w.records;
  }

  -- A length of a cycle that wraps around to 0 is divided by, in a panic. It leaves the engine's lock
  -- taken, so that no later call of the engine returns.
  abbrev pub started : ℕ → String → String → Config F → World F → Outcome × World F
  started now run_id user_id c w =
      if leb_ℤ c.end_time c.start_time
      then (err (bad_request "end_time must be after start_time" []), w)
      else (if is_locked user_id w.runs
          then (err (backtest_lock "another backtest run is in progress"), w)
          else (if eq_ℤ (cycle_seconds (with_cadence c).cadence) (pos 0)
              then (panics, w)
              else (ok, entered now run_id user_id (with_cadence c) w)))

  abbrev pub checked : ℕ → String → String → Config F → List String → World F → Outcome × World F
  checked now run_id user_id c [] w =
      (err (bad_request "symbols is required" (("symbols", "at least one symbol") ∷ [])), w)
  checked now run_id user_id c (s ∷ ss) w = started now run_id user_id (defaulted now c) w

  unfoldable pub start : ℕ → String → String → Config F → World F → Outcome × World F
  start now run_id user_id c w = checked now run_id user_id c c.symbols w

  unfoldable pub progress : Run F → F
  progress r =
      if leb_ℤ r.total_cycles (pos 0)
      then nil
      else (let p =
            f.mul (f.div (f.of_int (pos r.cycle)) (f.of_int r.total_cycles)) (f.dec 100 0) in
          if f.lt (f.dec 100 0) p then f.dec 100 0 else p)

  unfoldable pub max_drawdown : Run F → F
  max_drawdown r =
      if f.le r.peak_equity nil || f.le r.peak_equity r.equity
      then nil
      else f.mul (f.div (f.sub r.peak_equity r.equity) r.peak_equity) (f.dec 100 0)

  abbrev pub restored : Option (BacktestRun F) → Option (Run F)
  restored none = none
  restored (some b) =
      if is_final b.state
      then some (blank b.state b.config b.equity_last b.liquidated b.last_error)
      else some (blank RunState.failed no_config nil false "engine restarted")

  -- `none` is the error that there is no such run.
  abbrev pub found : Option (Run F) → Option (BacktestRun F) → Option (Run F)
  found (some r) b = some r
  found none b = restored b

  unfoldable pub get_run : String → World F → Option (Run F)
  get_run id w = found (lookup id w.runs) (lookup id w.records)

  -- `r.state = …` changes the run only if the engine holds it: a restored one is a copy.
  abbrev put_run : String → Run F → Dict (Run F) → Dict (Run F)
  put_run id r rs = elim (lookup id rs) [ none ↦ rs | some old ↦ insert id r rs ]

  abbrev pub synced_record : ℕ → Option (Run F) → BacktestRun F → BacktestRun F
  synced_record now none b = record b { updated_at = now }
  synced_record now (some r) b = record b {
    state = r.state;
    progress_pct = progress r;
    equity_last = r.equity;
    liquidated = r.liquidated;
    last_error = r.last_error;
    updated_at = now;
  }

  unfoldable pub sync_state : ℕ → String → World F → World F
  sync_state now id w = elim (lookup id w.records) [
    | none ↦ w
    | some b ↦ record w { records = insert id (synced_record now (lookup id w.runs) b) w.records }
  ]

  abbrev pub set_state : ℕ → String → RunState → Run F → World F → World F
  set_state now id state r w =
      sync_state now id (record w { runs = put_run id (record r { state = state }) w.runs })

  abbrev paused_run : ℕ → String → Option (Run F) → World F → Outcome × World F
  paused_run now id none w = (run_not_found, w)
  paused_run now id (some r) w =
      if is_running r.state
      then (ok, set_state now id RunState.paused r w)
      else (err (bad_request (named "run is not running (state=" r.state) []), w)

  unfoldable pub pause : ℕ → String → World F → Outcome × World F
  pause now id w = paused_run now id (get_run id w) w

  abbrev pub resumed_run : ℕ → String → Option (Run F) → World F → Outcome × World F
  resumed_run now id none w = (run_not_found, w)
  resumed_run now id (some r) w =
      if is_paused r.state
      then (ok, set_state now id RunState.running r w)
      else (err (bad_request (named "run is not paused (state=" r.state) []), w)

  unfoldable pub resume : ℕ → String → World F → Outcome × World F
  resume now id w = resumed_run now id (get_run id w) w

  abbrev pub stopped_run : ℕ → String → Option (Run F) → World F → Outcome × World F
  stopped_run now id none w = (run_not_found, w)
  stopped_run now id (some r) w =
      if is_stopped r.state
      then (err (bad_request (named "run already in terminal state (" r.state) []), w)
      else (if r.has_cancel then (ok, set_state now id RunState.stopped r w) else (panics, w))

  unfoldable pub stop : ℕ → String → World F → Outcome × World F
  stop now id w = stopped_run now id (get_run id w) w

  abbrev forgotten : String → World F → World F
  forgotten id w = record w {
    runs = erase id w.runs;
    records = erase id w.records;
    trades = select (λ t. not (str_eq t.run_id id)) w.trades;
  }

  abbrev pub deleted_run : String → Option (Run F) → World F → Outcome × World F
  deleted_run id none w = (run_not_found, w)
  deleted_run id (some r) w =
      if is_running r.state || is_paused r.state
      then (err (backtest_lock "cannot delete an active run"), w)
      else (if r.has_cancel
          then (if is_some (lookup id w.records)
              then (ok, forgotten id w)
              else (run_not_found, record w { runs = erase id w.runs }))
          else (panics, w))

  unfoldable pub delete : String → World F → Outcome × World F
  delete id w = deleted_run id (get_run id w) w

  -- `finish`, with which the replay of a run that the engine holds ends.
  abbrev finished_run : RunState → String → Run F → Run F
  finished_run state msg r = record r {
    state = state;
    last_error = if str_eq msg "" then r.last_error else msg;
  }

  abbrev pub finished : ℕ → String → RunState → String → Option (Run F) → World F → World F
  finished now id state msg none w = w
  finished now id state msg (some r) w =
      sync_state now id (record w { runs = insert id (finished_run state msg r) w.runs })

  unfoldable pub finish : ℕ → String → RunState → String → World F → World F
  finish now id state msg w = finished now id state msg (lookup id w.runs) w
