-- ===== src/Backtest/Control/Twice.antt =====
-- How a user comes to have two running runs: `Resume` of internal/backtest/engine.go does not look at
-- the lock.
use fxcore.Prelude.{
  ℕ, ◌≤◌, ◌≡◌, refl, ◌∙◌, inl, inr, true, false, String, str_eq, eq_iff, eq_refl, some, List, [],
  ◌∷◌, arith, if◌then◌else◌, Bool-cases,
}
use fxcore.Prelude.Dict.{Dict, lookup}
use fxcore.Prelude.Dict.Laws.{lookup-insert}
use fxcore.Prelude.Int.{leb_ℤ, eq_ℤ, pos}
use fxcore.Prelude.Float.{Float64}
use fxcore.Backtest.{RunState, is_running, is_paused, Config, Run, World}
use fxcore.Backtest.Setup.{defaulted, with_cadence, cycle_seconds, new_run}
use fxcore.Backtest.Control.{
  ok, is_locked, start, started, checked, pause, resume, get_run, put_run,
}
use fxcore.Backtest.Control.Lock.{runs_for, running_of, sync-runs}

module _ {F : Type 0} where
  found-running_of :
      (u id : String) (r : Run F) (rs : Dict (Run F))
      → lookup id rs ≡ some r
      → runs_for u (id, r) ≡ true
      → 1 ≤ running_of u rs
  unfolding lookup
  found-running_of u id r [] e h = cc
  found-running_of u id r ((k, q) ∷ rs) e h = elim (Bool-cases (str_eq k id)) [
    | inl p ↦ ground (arith, e, p, h)
    | inr p ↦ ground (arith, e, p, found-running_of u id r rs, h)
  ]

  -- Two of the user's running runs, under two ids.
  two-running_of :
      (u i j : String) (r q : Run F) (rs : Dict (Run F))
      → str_eq i j ≡ false
      → lookup i rs ≡ some r
      → lookup j rs ≡ some q
      → runs_for u (i, r) ≡ true
      → runs_for u (j, q) ≡ true
      → 2 ≤ running_of u rs
  unfolding lookup
  two-running_of u i j r q [] ne e d h g = cc
  two-running_of u i j r q ((k, x) ∷ rs) ne e d h g = elim (Bool-cases (str_eq k i)) [
    | inl p ↦ elim (Bool-cases (str_eq k j)) [
      | inl s ↦ absurd (ground (arith, eq_iff k i, eq_iff k j, eq_iff i j))
      | inr s ↦ ground (arith, e, d, p, s, h, found-running_of u j q rs, g)
    ]
    | inr p ↦ elim (Bool-cases (str_eq k j)) [
      | inl s ↦ ground (arith, e, d, p, s, g, found-running_of u i r rs, h)
      | inr s ↦ ground (arith, e, d, p, s, two-running_of u i j r q rs)
    ]
  ]

module _ {F : Type 0} ⦃f : Float64 F⦄ where
  -- A running run that the engine holds is paused, and no other one changes.
  pause_held :
      (now : ℕ) (id : String) (w : World F) (r : Run F)
      → lookup id w.runs ≡ some r
      → is_running r.state ≡ true
      → (j : String)
      → lookup j (pause now id w).1.runs
        ≡ (if str_eq id j then some (record r { state = RunState.paused }) else lookup j w.runs)
  unfolding pause get_run
  pause_held now id w r e q j = rw (e, q) (rw sync-runs (rw (e, put_run) (rw lookup-insert refl)))

  -- A paused run that the engine holds is set running, whatever other runs are running.
  resume_held :
      (now : ℕ) (id : String) (w : World F) (r : Run F)
      → lookup id w.runs ≡ some r
      → is_paused r.state ≡ true
      → ((resume now id w).0 ≡ ok)
        × ((j : String)
            → lookup j (resume now id w).1.runs ≡ (
                if str_eq id j
                then some (record r { state = RunState.running })
                else lookup j w.runs))
  unfolding resume get_run
  resume_held now id w r e q =
      rw (e, q) (refl, λ j. rw sync-runs (rw (e, put_run) (rw lookup-insert refl)))

  started-held :
      (now : ℕ) (id u : String) (c : Config F) (w : World F)
      → (started now id u c w).0 ≡ ok
      → (j : String)
      → lookup j (started now id u c w).1.runs
        ≡ (if str_eq id j then some (new_run u (with_cadence c)) else lookup j w.runs)
  started-held now id u c w good j = elim (Bool-cases (leb_ℤ c.end_time c.start_time)) [
    | inl e ↦ cc (rw e at good)
    | inr e ↦ elim (Bool-cases (is_locked u w.runs)) [
      | inl q ↦ cc (rw (e, q) at good)
      | inr q ↦ elim (Bool-cases (eq_ℤ (cycle_seconds (with_cadence c).cadence) (pos 0))) [
        | inl z ↦ cc (rw (e, q, z) at good)
        | inr z ↦ rw (e, q, z) (rw lookup-insert refl)
      ]
    ]
  ]

  -- A start that succeeds enters the new run, and no other one changes.
  start_held :
      (now : ℕ) (id u : String) (c : Config F) (ss : List String) (w : World F)
      → (checked now id u c ss w).0 ≡ ok
      → (cfg : Config F) × ((j : String)
          → lookup j (checked now id u c ss w).1.runs
            ≡ (if str_eq id j then some (new_run u cfg) else lookup j w.runs))
  start_held now id u c [] w good = cc
  start_held now id u c (s ∷ ss) w good =
      (with_cadence (defaulted now c), started-held now id u (defaulted now c) w good)

  -- A user who pauses one of their running runs that the engine holds, starts another one with
  -- success and under another id, and then resumes the first is not refused, and has two running
  -- runs.
  pub resume_twice :
      (u i j : String) (t1 t2 t3 : ℕ) (c : Config F) (w : World F) (r : Run F)
      → lookup i w.runs ≡ some r
      → is_running r.state ≡ true
      → r.user_id ≡ u
      → str_eq i j ≡ false
      → (start t2 j u c (pause t1 i w).1).0 ≡ ok
      → let (answer, w') = resume t3 i (start t2 j u c (pause t1 i w).1).1 in
        (answer ≡ ok) × (2 ≤ running_of u w'.runs)
  unfolding start
  resume_twice u i j t1 t2 t3 c w r held runs owned ne good =
      let w1 : World F = (pause t1 i w).1 in
      let w2 : World F = (start t2 j u c w1).1 in
      let rested : Run F = record r { state = RunState.paused } in
      let again : Run F = record r { state = RunState.running } in
      let paused = pause_held t1 i w r held runs in
      let (cfg, entered) = start_held t2 j u c c.symbols w1 good in
      let ne' : str_eq j i ≡ false = ground (arith, eq_iff i j, eq_iff j i) in
      let there : lookup i w2.runs ≡ some rested =
        entered i ∙ rw ne' (paused i ∙ rw (eq_refl i) refl) in
      let new : lookup j w2.runs ≡ some (new_run u cfg) = entered j ∙ rw (eq_refl j) refl in
      let (answer, after) = resume_held t3 i w2 rested there refl in
      (
        answer,
        two-running_of u i j again (new_run u cfg) (resume t3 i w2).1.runs ne
            (after i ∙ rw (eq_refl i) refl) (after j ∙ rw ne new) (rw owned (eq_refl u))
            (eq_refl u),
      )
