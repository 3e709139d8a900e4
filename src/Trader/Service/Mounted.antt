-- ===== src/Trader/Service/Mounted.antt =====
-- The statuses in the store against the loops of the engine.
use fxcore.Prelude.{
  ℕ, ◌≡◌, ◌≢◌, refl, inl, inr, String, str_eq, eq_iff, Bool, true, false, Option, none, some, List,
  [], ◌∷◌, arith, if◌then◌else◌, and_right, Option-cases,
}
use fxcore.Prelude.Dict.{lookup, insert}
use fxcore.Prelude.Dict.Laws.{lookup-insert, lookup-erase}
use fxcore.Model.Trader.{Status, Trader}
use fxcore.Store.{Store}
use fxcore.Store.Traders.{may_use}
use fxcore.Trader.Runners
use fxcore.Trader.Runners.{Runners, Runner, is_running, exits, goes_on}
use fxcore.Trader.Service.{
  World, transitions, start, pause, resume, stop, mount, started, halted, unmounted,
}
use fxcore.Trader.Service.Transition.{moved_in, permits, transition-cases}

-- A loop belongs to a trader that runs or is paused.
abbrev is_active : Status → Bool
is_active Status.running = true
is_active Status.paused = true
is_active _ = false

-- The calls of the service, and a turn of a trader's loop.
pub data Call : Type 0 where
  start_call pause_call resume_call stop_call : String → String → Call
  turn_call : Bool → String → Call

paused_was_active : (st : Status) → transitions st Status.paused ≡ true → is_active st ≡ true
paused_was_active st h = ground arith

resumed_was_active :
    (st : Status)
    → transitions st Status.running ≡ true
    → st ≢ Status.idle
    → st ≢ Status.stopped
    → is_active st ≡ true
resumed_was_active st h a b = ground arith

started_was_inactive :
    (st : Status) → transitions st Status.running ≡ true → st ≢ Status.paused → is_active st ≡ false
started_was_inactive st h a = ground arith

module _ {F : Type 0} where
  abbrev active : Option (Trader F) → Bool
  active none = false
  active (some t) = is_active t.status

  -- Just the traders that run or are paused have a loop.
  abbrev pub InStep : Store F → Runners → Type 0
  InStep s rs = (id : String) → is_running id rs ≡ active (lookup id s.traders)

  abbrev turned : Bool → String → Store F → Option Runners → Option Runners
  turned first id s none = none
  turned first id s (some rs) = some (Runners.loop_turn first id (lookup id s.traders) rs)

  abbrev serve : ℕ → Call → World F → World F
  serve now (start_call id user_id) w = (start now id user_id w).1
  serve now (pause_call id user_id) w = (pause now id user_id w).1
  serve now (resume_call id user_id) w = (resume now id user_id w).1
  serve now (stop_call id user_id) w = (stop now id user_id w).1
  serve now (turn_call first id) w = record w { engine = turned first id w.store w.engine }

  -- A paused trader is resumed, not started; and only a paused trader is resumed.
  abbrev pub IsProper : Call → Store F → Type 0
  IsProper (start_call id user_id) s =
      (t : Trader F) → lookup id s.traders ≡ some t → t.status ≢ Status.paused
  IsProper (resume_call id user_id) s =
      (t : Trader F)
      → lookup id s.traders ≡ some t
      → (t.status ≢ Status.idle) × (t.status ≢ Status.stopped)
  IsProper _ s = Unit

  abbrev pub run : List (ℕ × Call) → World F → World F
  run [] w = w
  run ((now, c) ∷ cs) w = run cs (serve now c w)

  abbrev pub AllProper : List (ℕ × Call) → World F → Type 0
  AllProper [] w = Unit
  AllProper ((now, c) ∷ cs) w = IsProper c w.store × AllProper cs (serve now c w)

  -- The status of the moved trader is the new one; the others stay.
  moved_in-active :
      (now : ℕ) (id : String) (to : Status) (t : Trader F) (s : Store F) (j : String)
      → active (lookup j (moved_in now id to t s).traders)
        ≡ (if str_eq id j then is_active to else active (lookup j s.traders))
  moved_in-active now id to t s j = rw lookup-insert (ground (arith, eq_iff id j))

  -- A move between two active states keeps the loops.
  move-InStep :
      (now : ℕ) (id : String) (to : Status) (t : Trader F) (s : Store F) (rs : Runners)
      → InStep s rs
      → lookup id s.traders ≡ some t
      → is_active t.status ≡ is_active to
      → InStep (moved_in now id to t s) rs
  move-InStep now id to t s rs h found same j =
      rw moved_in-active (ground (arith, eq_iff id j, h j, found))

  stop-InStep :
      (now : ℕ) (id : String) (t : Trader F) (s : Store F) (rs : Runners)
      → InStep s rs
      → InStep (moved_in now id Status.stopped t s) (Runners.stop id rs)
  unfolding Runners.stop
  stop-InStep now id t s rs h j = elim (Option-cases (lookup id rs)) [
    | inl p ↦ rw (p, Runners.stop) (rw moved_in-active (ground (arith, eq_iff id j, h j, p)))
    | inr (r, p) ↦
        rw (p, Runners.stop) (rw (moved_in-active, lookup-erase) (ground (arith, eq_iff id j, h j)))
  ]

  start-InStep :
      (now : ℕ) (id : String) (t : Trader F) (s : Store F) (rs : Runners)
      → InStep s rs
      → InStep (moved_in now id Status.running t s) (insert id (record { trader_id = id }) rs)
  start-InStep now id t s rs h j =
      rw (moved_in-active, lookup-insert) (ground (arith, eq_iff id j, h j))

  turn_of-live :
      (first : Bool) (t : Trader F) (st : Status) (id : String) (rs : Runners)
      → is_active st ≡ true
      → Runners.after_turn id (Runners.turn_of first t st) rs ≡ rs
  turn_of-live first t Status.running id rs a = refl
  turn_of-live first t Status.paused id rs a = refl
  turn_of-live first t Status.idle id rs a = cc
  turn_of-live first t Status.stopped id rs a = cc
  turn_of-live first t Status.error id rs a = cc

  turn-live :
      (first : Bool) (o : Option (Trader F)) (id : String) (rs : Runners)
      → active o ≡ true
      → Runners.after_turn id (Runners.turn first o) rs ≡ rs
  unfolding Runners.turn
  turn-live first none id rs a = cc
  turn-live first (some t) id rs a = turn_of-live first t t.status id rs a

  turn-InStep :
      (first : Bool) (id : String) (s : Store F) (rs : Runners)
      → InStep s rs
      → InStep s (Runners.loop_turn first id (lookup id s.traders) rs)
  unfolding Runners.loop_turn Runners.turn
  turn-InStep first id s rs h j = elim (Option-cases (lookup id rs)) [
    | inl p ↦ rw (p, Runners.loop_turn) (h j)
    | inr (r, p) ↦
        rw (p, Runners.loop_turn)
          (rw (turn-live first (lookup id s.traders) id rs (ground (arith, h id, p))) (h j))
  ]

  -- Both parts of the world are in step, if there is an engine.
  abbrev pub AreInStep : Store F → Option Runners → Type 0
  AreInStep s none = Unit
  AreInStep s (some rs) = InStep s rs

  abbrev pub IsMounted : World F → Type 0
  IsMounted w = AreInStep w.store w.engine

  move-AreInStep :
      (now : ℕ) (id : String) (to : Status) (t : Trader F) (s : Store F) (engine : Option Runners)
      → AreInStep s engine
      → lookup id s.traders ≡ some t
      → is_active t.status ≡ is_active to
      → AreInStep (moved_in now id to t s) engine
  move-AreInStep now id to t s none h found same = tt
  move-AreInStep now id to t s (some rs) h found same = move-InStep now id to t s rs h found same

  stop-AreInStep :
      (now : ℕ) (id : String) (t : Trader F) (s : Store F) (engine : Option Runners)
      → AreInStep s engine
      → AreInStep (moved_in now id Status.stopped t s) (unmounted id engine)
  stop-AreInStep now id t s none h = tt
  stop-AreInStep now id t s (some rs) h = stop-InStep now id t s rs h

  turn-AreInStep :
      (first : Bool) (id : String) (s : Store F) (engine : Option Runners)
      → AreInStep s engine
      → AreInStep s (turned first id s engine)
  turn-AreInStep first id s none h = tt
  turn-AreInStep first id s (some rs) h = turn-InStep first id s rs h

  mount-IsMounted :
      (now : ℕ) (id : String) (t : Trader F) (s : Store F) (engine : Option Runners)
      → AreInStep s engine
      → lookup id s.traders ≡ some t
      → is_active t.status ≡ false
      → IsMounted (mount now id (moved_in now id Status.running t s) engine).1
  unfolding Runners.start
  mount-IsMounted now id t s none h found idle = tt
  mount-IsMounted now id t s (some rs) h found idle =
      let free : is_running id rs ≡ false = ground (arith, h id, found, idle) in
      rw free (start-InStep now id t s rs h)

  table :
      (to : Status) (user_id : String) (t : Trader F)
      → permits to user_id t ≡ true
      → transitions t.status to ≡ true
  table to user_id t h = and_right (may_use user_id t.user_id) (transitions t.status to) h

  serve-IsMounted :
      (now : ℕ) (c : Call) (w : World F)
      → IsMounted w
      → IsProper c w.store
      → IsMounted (serve now c w)
  unfolding start pause resume stop
  serve-IsMounted now (pause_call id user_id) w h p =
      elim (transition-cases now id Status.paused user_id w.store) [
        | inl (e, q) ↦ rw q h
        | inr (t, found, ok, q) ↦ rw q (
            move-AreInStep now id Status.paused t w.store w.engine h found
              (paused_was_active t.status (table Status.paused user_id t ok)))
      ]
  serve-IsMounted now (resume_call id user_id) w h p =
      elim (transition-cases now id Status.running user_id w.store) [
        | inl (e, q) ↦ rw q h
        | inr (t, found, ok, q) ↦ rw q (
            move-AreInStep now id Status.running t w.store w.engine h found (
              resumed_was_active t.status (table Status.running user_id t ok) (p t found).0
                (p t found).1))
      ]
  serve-IsMounted now (stop_call id user_id) w h p =
      elim (transition-cases now id Status.stopped user_id w.store) [
        | inl (e, q) ↦ rw (q, serve, stop, halted) h
        | inr (t, found, ok, q) ↦
            rw (q, serve, stop, halted) (stop-AreInStep now id t w.store w.engine h)
      ]
  serve-IsMounted now (start_call id user_id) w h p =
      elim (transition-cases now id Status.running user_id w.store) [
        | inl (e, q) ↦ rw (q, serve, start, started) h
        | inr (t, found, ok, q) ↦
            rw (q, serve, start, started)
              (mount-IsMounted now id t w.store w.engine h found
                (started_was_inactive t.status (table Status.running user_id t ok) (p t found)))
      ]
  serve-IsMounted now (turn_call first id) w h p = turn-AreInStep first id w.store w.engine h

  -- As long as paused traders are only resumed and only paused traders are resumed, just the traders
  -- that run or are paused have a loop, whatever the service and the loops do.
  pub run-IsMounted :
      (cs : List (ℕ × Call)) (w : World F) → IsMounted w → AllProper cs w → IsMounted (run cs w)
  run-IsMounted [] w h p = h
  run-IsMounted ((now, c) ∷ cs) w h (p, ps) =
      run-IsMounted cs (serve now c w) (serve-IsMounted now c w h p) ps
