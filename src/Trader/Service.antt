-- ===== src/Trader/Service.antt =====
-- internal/api/v1/service/trader_svc.go: the life cycle of traders.
pub mod Requests
pub mod Transition
pub mod Answers
pub mod Mounted
pub mod Faults
pub mod Metrics
pub mod Closing
use fxcore.Prelude.{
  ℕ, String, append, str_eq, Bool, true, false, ◌&&◌, ◌||◌, not, Option, none, some, List, [], ◌∷◌,
  if◌then◌else◌,
}
use fxcore.Model.Trader.{Status, same_status, Trader}
use fxcore.Middleware.ApiError.{ApiError, bad_request, not_found, trader_running, internal}
use fxcore.Store.{Store}
use fxcore.Store.Traders.{
  Mutation, done, failed, Stored, stored, missing, rejected, may_use, with_trader, get_trader,
  list_traders,
}
use fxcore.Trader.Runners
use fxcore.Trader.Runners.{Runners}

-- The errors that a callback of `WithTrader` returns.
pub data ServiceError : Type 0 where
  not_owned : ServiceError
  already_running : ServiceError
  illegal_transition : ServiceError
  already_there : ServiceError
  running_cannot_modify : ServiceError

-- `engine` is none if the service has no engine.
pub record World (F : Type 0) : Type 0 where
  pub store : Store F
  pub engine : Option Runners

abbrev pub transitions : Status → Status → Bool
transitions Status.idle Status.running = true
transitions Status.running Status.paused = true
transitions Status.running Status.stopped = true
transitions Status.paused Status.running = true
transitions Status.paused Status.stopped = true
transitions Status.stopped Status.running = true
transitions Status.error Status.stopped = true
transitions _ _ = false

abbrev pub status_name : Status → String
status_name Status.idle = "idle"
status_name Status.running = "running"
status_name Status.paused = "paused"
status_name Status.stopped = "stopped"
status_name Status.error = "error"

abbrev pub unmounted : String → Option Runners → Option Runners
unmounted id none = none
unmounted id (some rs) = some (Runners.stop id rs)

-- `err.Error()`
abbrev pub error_text : ServiceError → String
error_text not_owned = "store: not found"
error_text already_running = "trader already running"
error_text illegal_transition = "illegal state transition"
error_text already_there = "trader already in target state"
error_text running_cannot_modify = "cannot modify trader while running"

-- The answer to a move that the callback refuses.
abbrev pub refused : Status → ServiceError → ApiError
refused to not_owned = not_found "trader not found"
refused to already_running = trader_running "trader is already running"
refused to illegal_transition = not_found (append "illegal state transition: -> " (status_name to))
refused to already_there = bad_request (append "trader is already " (status_name to)) []
refused to running_cannot_modify =
    internal (append "state transition failed: " (error_text running_cannot_modify))

module _ {F : Type 0} where
  abbrev pub with_status : Status → Trader F → Trader F
  with_status to t = record t { status = to }

  -- The callback of `transition`.
  unfoldable pub move : Status → String → Trader F → Mutation ServiceError (Trader F)
  move to user_id t =
      if not (may_use user_id t.user_id)
      then failed not_owned
      else (if same_status t.status to
          then failed (if same_status to Status.running then already_running else already_there)
          else (if not (transitions t.status to)
              then failed illegal_transition
              else done (with_status to t)))

  -- `none` is success.
  abbrev pub moved : Status → Stored ServiceError (Trader F) → Option ApiError
  moved to (stored t) = none
  moved to missing = some (not_found "trader not found")
  moved to (rejected e) = some (refused to e)

  unfoldable pub transition : ℕ → String → Status → String → Store F → Option ApiError × Store F
  transition now id to user_id s =
      let (r, s') = with_trader now id (move to user_id) s in (moved to r, s')

  abbrev to_idle : Trader F → Mutation ServiceError (Trader F)
  to_idle t = done (with_status Status.idle t)

  -- Starting the loop, and taking the status back where that fails.
  abbrev pub mounted_or_idle :
      ℕ → String → Store F → Runners → Option Runners → Option ApiError × World F
  mounted_or_idle now id s rs (some rs') = (none, record { store = s; engine = some rs' })
  mounted_or_idle now id s rs none = (
    some (internal "engine start failed: engine: trader already running"),
    record { store = (with_trader now id to_idle s).1; engine = some rs },
  )

  abbrev pub mount : ℕ → String → Store F → Option Runners → Option ApiError × World F
  mount now id s none = (none, record { store = s; engine = none })
  mount now id s (some rs) = mounted_or_idle now id s rs (Runners.start id rs)

  abbrev pub started :
      ℕ → String → Option Runners → Option ApiError × Store F → Option ApiError × World F
  started now id engine (some e, s) = (some e, record { store = s; engine = engine })
  started now id engine (none, s) = mount now id s engine

  unfoldable pub start : ℕ → String → String → World F → Option ApiError × World F
  start now id user_id w =
      started now id w.engine (transition now id Status.running user_id w.store)

  unfoldable pub pause : ℕ → String → String → World F → Option ApiError × World F
  pause now id user_id w =
      let (e, s) = transition now id Status.paused user_id w.store in (e, record w { store = s })

  unfoldable pub resume : ℕ → String → String → World F → Option ApiError × World F
  resume now id user_id w =
      let (e, s) = transition now id Status.running user_id w.store in (e, record w { store = s })

  abbrev pub halted :
      String → Option Runners → Option ApiError × Store F → Option ApiError × World F
  halted id engine (some e, s) = (some e, record { store = s; engine = engine })
  halted id engine (none, s) = (none, record { store = s; engine = unmounted id engine })

  unfoldable pub stop : ℕ → String → String → World F → Option ApiError × World F
  stop now id user_id w = halted id w.engine (transition now id Status.stopped user_id w.store)

  -- `Get` and `List`.
  abbrev own : String → Option (Trader F) → Option (Trader F)
  own user_id none = none
  own user_id (some t) = if may_use user_id t.user_id then some t else none

  -- `none` is "trader not found".
  unfoldable pub get : String → String → Store F → Option (Trader F)
  get id user_id s = own user_id (get_trader id s)

  pub list : String → Store F → List (Trader F)
  list user_id s = list_traders user_id s
