-- ===== src/Trader/Runners.antt =====
-- internal/trader/engine/engine.go: which traders have a running loop, and what a turn of the loop
-- does.
pub mod Pace
use fxcore.Prelude.{String, Bool, true, false, Option, none, some, if◌then◌else◌, is_some}
use fxcore.Prelude.Int.{ℤ, pos, ltb_ℤ}
use fxcore.Prelude.Dict.{Dict, lookup, insert, erase}
use fxcore.Model.Trader.{Status, Trader}

-- The control of a loop. Its `cancel` and `wg` are not seen from outside: `Stop` cancels, waits for
-- both loops, and then nothing of the runner is left.
pub record Runner : Type 0 where
  pub trader_id : String

abbrev pub Runners : Type 0
Runners = Dict Runner

abbrev pub is_running : String → Runners → Bool
is_running trader_id rs = is_some (lookup trader_id rs)

-- `none` is the error "engine: trader already running".
unfoldable pub start : String → Runners → Option Runners
start trader_id rs =
    if is_running trader_id rs
    then none
    else some (insert trader_id (record { trader_id = trader_id }) rs)

unfoldable pub stop : String → Runners → Runners
stop trader_id rs = elim (lookup trader_id rs) [ none ↦ rs | some r ↦ erase trader_id rs ]

-- One turn: the loop ends and takes its runner off, or it runs a cycle or not and then sleeps.
pub data Turn : Type 0 where
  exits : Turn
  goes_on : Bool → ℤ → Turn

abbrev pub after_turn : String → Turn → Runners → Runners
after_turn trader_id exits rs = erase trader_id rs
after_turn trader_id (goes_on cycle seconds) rs = rs

module _ {F : Type 0} where
  abbrev pub scheduled : Trader F → ℤ
  scheduled t = elim t.schedule [
    | none ↦ pos 60
    | some s ↦ if ltb_ℤ (pos 0) s.interval then s.interval else pos 60
  ]

  -- The seconds between two cycles.
  unfoldable pub interval : Trader F → ℤ
  interval t = if ltb_ℤ (scheduled t) (pos 3) then pos 3 else scheduled t

  abbrev pub turn_of : Bool → Trader F → Status → Turn
  turn_of first t Status.stopped = exits
  turn_of first t Status.error = exits
  turn_of first t Status.paused = goes_on false (pos 2)
  turn_of first t Status.running = goes_on true (if first then pos 0 else interval t)
  turn_of first t Status.idle = goes_on false (if first then pos 0 else interval t)

  unfoldable pub turn : Bool → Option (Trader F) → Turn
  turn first none = exits
  turn first (some t) = turn_of first t t.status

  -- What a turn of a trader's loop does to the runners.
  unfoldable pub loop_turn : Bool → String → Option (Trader F) → Runners → Runners
  loop_turn first trader_id t rs = elim (lookup trader_id rs) [
    | none ↦ rs
    | some r ↦ after_turn trader_id (turn first t) rs
  ]
