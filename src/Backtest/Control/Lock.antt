-- ===== src/Backtest/Control/Lock.antt =====
-- The running runs of a user under the calls of internal/backtest/engine.go.
use fxcore.Prelude.{
  ℕ, ◌+◌, ◌≤◌, ◌≡◌, refl, inl, inr, Bool, true, false, ◌&&◌, ◌||◌, String, str_eq, eq_iff, Option,
  none, some, List, [], ◌∷◌, arith, if◌then◌else◌, count, Bool-cases, Option-cases, is_some,
}
use fxcore.Prelude.Dict.{Dict, lookup, insert, erase}
use fxcore.Prelude.Int.{leb_ℤ, eq_ℤ, pos}
use fxcore.Prelude.Float.{Float64}
use fxcore.Middleware.ApiError.{bad_request}
use fxcore.Backtest.{RunState, is_running, is_paused, is_stopped, Config, Run, World}
use fxcore.Backtest.Setup.{defaulted, with_cadence, cycle_seconds, new_run}
use fxcore.Backtest.Control.{
  Outcome, ok, err, panics, named, is_locked, start, started, checked, finished, finished_run,
  pause, stop, delete, finish, get_run, set_state, sync_state, put_run, paused_run, stopped_run,
  deleted_run,
}

module _ {F : Type 0} where
  -- A running run of the user.
  abbrev pub runs_for : String → String × Run F → Bool
  runs_for u e = is_running e.1.state && str_eq e.1.user_id u

  abbrev pub running_of : String → Dict (Run F) → ℕ
  running_of u rs = count (runs_for u) rs

  free-running_of : (u : String) (rs : Dict (Run F)) → is_locked u rs ≡ false → running_of u rs ≡ 0
  free-running_of u [] h = refl
  free-running_of u ((k, r) ∷ rs) h = ground (arith, free-running_of u rs, h)

  insert-running_of :
      (u k : String) (r : Run F) (rs : Dict (Run F))
      → running_of u (insert k r rs) ≤ running_of u rs + (if runs_for u (k, r) then 1 else 0)
  unfolding insert
  insert-running_of u k r [] = omega arith
  insert-running_of u k r ((j, q) ∷ rs) = ground (arith, insert-running_of u k r rs)

  erase-running_of :
      (u k : String) (rs : Dict (Run F)) → running_of u (erase k rs) ≤ running_of u rs
  unfolding erase
  erase-running_of u k [] = omega arith
  erase-running_of u k ((j, q) ∷ rs) = ground (arith, erase-running_of u k rs)

-- Every call but `Resume`, and the end of a replay.
pub data Call (F : Type 0) : Type 0 where
  start_call : String → String → Config F → Call F
  pause_call stop_call delete_call complete_call liquidate_call : String → Call F

module _ {F : Type 0} ⦃f : Float64 F⦄ where
  abbrev pub serve : ℕ → Call F → World F → World F
  serve now (start_call run_id user_id c) w = (start now run_id user_id c w).1
  serve now (pause_call id) w = (pause now id w).1
  serve now (stop_call id) w = (stop now id w).1
  serve now (delete_call id) w = (delete id w).1
  serve now (complete_call id) w = finish now id RunState.completed "" w
  serve now (liquidate_call id) w = finish now id RunState.liquidated "equity depleted" w

  abbrev pub run : List (ℕ × Call F) → World F → World F
  run [] w = w
  run ((now, c) ∷ cs) w = run cs (serve now c w)

  put-running_of :
      (u k : String) (r : Run F) (rs : Dict (Run F))
      → is_running r.state ≡ false
      → running_of u (put_run k r rs) ≤ running_of u rs
  put-running_of u k r rs h = elim (Option-cases (lookup k rs)) [
    | inl e ↦ rw (e, put_run) (omega arith)
    | inr (q, e) ↦ rw (e, put_run) (ground (arith, insert-running_of u k r rs, h))
  ]

  pub sync-runs : (now : ℕ) (id : String) (w : World F) → (sync_state now id w).runs ≡ w.runs
  unfolding sync_state
  sync-runs now id w = elim (Option-cases (lookup id w.records)) [
    | inl e ↦ rw (e, sync_state) refl
    | inr (b, e) ↦ rw (e, sync_state) refl
  ]

  set-running_of :
      (u : String) (now : ℕ) (id : String) (state : RunState) (r : Run F) (w : World F)
      → is_running state ≡ false
      → running_of u (set_state now id state r w).runs ≤ running_of u w.runs
  set-running_of u now id state r w h =
      rw sync-runs (put-running_of u id (record r { state = state }) w.runs h)

  started-running_of :
      (u : String) (now : ℕ) (run_id user_id : String) (c : Config F) (w : World F)
      → running_of u w.runs ≤ 1
      → running_of u (started now run_id user_id c w).1.runs ≤ 1
  started-running_of u now run_id user_id c w h =
      elim (Bool-cases (leb_ℤ c.end_time c.start_time)) [
        | inl e ↦ rw e h
        | inr e ↦ elim (Bool-cases (is_locked user_id w.runs)) [
          | inl q ↦ rw (e, q) h
          | inr q ↦ elim (Bool-cases (eq_ℤ (cycle_seconds (with_cadence c).cadence) (pos 0))) [
            | inl z ↦ rw (e, q, z) h
            | inr z ↦
                rw (e, q, z)
                  (ground (
                    arith,
                    insert-running_of u run_id (new_run user_id (with_cadence c)) w.runs,
                    free-running_of user_id w.runs,
                    q,
                    h,
                    eq_iff user_id u,
                  ))
          ]
        ]
      ]

  checked-running_of :
      (u : String) (now : ℕ) (run_id user_id : String) (c : Config F) (ss : List String)
      (w : World F)
      → running_of u w.runs ≤ 1
      → running_of u (checked now run_id user_id c ss w).1.runs ≤ 1
  checked-running_of u now run_id user_id c [] w h = h
  checked-running_of u now run_id user_id c (s ∷ ss) w h =
      started-running_of u now run_id user_id (defaulted now c) w h

  if-running_of :
      (u : String) (n : ℕ) (b : Bool) (x y : Outcome × World F)
      → running_of u x.1.runs ≤ n
      → running_of u y.1.runs ≤ n
      → running_of u (if b then x else y).1.runs ≤ n
  if-running_of u n true x y p q = p
  if-running_of u n false x y p q = q

  paused-running_of :
      (u : String) (now : ℕ) (id : String) (o : Option (Run F)) (w : World F)
      → running_of u (paused_run now id o w).1.runs ≤ running_of u w.runs
  paused-running_of u now id none w = omega arith
  paused-running_of u now id (some r) w = elim (Bool-cases (is_running r.state)) [
    | inl q ↦ rw q (set-running_of u now id RunState.paused r w refl)
    | inr q ↦ rw q (omega arith)
  ]

  stopped-running_of :
      (u : String) (now : ℕ) (id : String) (o : Option (Run F)) (w : World F)
      → running_of u (stopped_run now id o w).1.runs ≤ running_of u w.runs
  stopped-running_of u now id none w = omega arith
  stopped-running_of u now id (some r) w =
      if-running_of u (running_of u w.runs) (is_stopped r.state)
        (err (bad_request (named "run already in terminal state (" r.state) []), w)
        (if r.has_cancel then (ok, set_state now id RunState.stopped r w) else (panics, w))
        (omega arith)
        (if-running_of u (running_of u w.runs) r.has_cancel
          (ok, set_state now id RunState.stopped r w) (panics, w)
          (set-running_of u now id RunState.stopped r w refl) (omega arith))

  deleted-running_of :
      (u id : String) (o : Option (Run F)) (w : World F)
      → running_of u (deleted_run id o w).1.runs ≤ running_of u w.runs
  deleted-running_of u id none w = omega arith
  deleted-running_of u id (some r) w = elim (Bool-cases (is_running r.state || is_paused r.state)) [
    | inl q ↦ rw q (omega arith)
    | inr q ↦ elim (Bool-cases r.has_cancel) [
      | inr c ↦ simp (q, c) (omega arith)
      | inl c ↦ elim (Bool-cases (is_some (lookup id w.records))) [
        | inl k ↦ simp (q, c, k) (erase-running_of u id w.runs)
        | inr k ↦ simp (q, c, k) (erase-running_of u id w.runs)
      ]
    ]
  ]

  finished-running_of :
      (u : String) (now : ℕ) (id : String) (state : RunState) (msg : String) (o : Option (Run F))
      (w : World F)
      → is_running state ≡ false
      → running_of u (finished now id state msg o w).runs ≤ running_of u w.runs
  finished-running_of u now id state msg none w h = omega arith
  finished-running_of u now id state msg (some r) w h =
      rw sync-runs (ground (arith, insert-running_of u id (finished_run state msg r) w.runs, h))

  serve-running_of :
      (u : String) (now : ℕ) (c : Call F) (w : World F)
      → running_of u w.runs ≤ 1
      → running_of u (serve now c w).runs ≤ 1
  unfolding start pause stop delete finish
  serve-running_of u now (start_call run_id user_id c) w h =
      checked-running_of u now run_id user_id c c.symbols w h
  serve-running_of u now (pause_call id) w h =
      omega (arith, paused-running_of u now id (get_run id w) w)
  serve-running_of u now (stop_call id) w h =
      omega (arith, stopped-running_of u now id (get_run id w) w)
  serve-running_of u now (delete_call id) w h =
      omega (arith, deleted-running_of u id (get_run id w) w)
  serve-running_of u now (complete_call id) w h =
      omega (arith, finished-running_of u now id RunState.completed "" (lookup id w.runs) w refl)
  serve-running_of u now (liquidate_call id) w h = omega (
    arith,
    finished-running_of u now id RunState.liquidated "equity depleted" (lookup id w.runs) w refl,
  )

  -- As long as no run is resumed, a user never has two running runs: not by starting, pausing,
  -- stopping or deleting runs, nor when a replay ends.
  pub one_running :
      (u : String) (cs : List (ℕ × Call F)) (w : World F)
      → running_of u w.runs ≤ 1
      → running_of u (run cs w).runs ≤ 1
  one_running u [] w h = h
  one_running u ((now, c) ∷ cs) w h =
      one_running u cs (serve now c w) (serve-running_of u now c w h)
