-- ===== src/Backtest/Control/Restart.antt =====
-- Runs that only the store knows, as after a restart of the process.
use fxcore.Prelude.{◌≡◌, refl, inl, inr, true, false, ◌||◌, String, none, some, arith, Bool-cases}
use fxcore.Prelude.Dict.{lookup}
use fxcore.Prelude.Float.{Float64}
use fxcore.Backtest.{RunState, is_running, is_paused, is_final, BacktestRun, World}
use fxcore.Backtest.Control.{panics, delete, get_run}

not_active : (s : RunState) → is_final s ≡ true → (is_running s || is_paused s) ≡ false
not_active s h = ground arith

module _ {F : Type 0} ⦃f : Float64 F⦄ where
  -- Deleting a run that only the store knows panics: a restored run has no function to cancel it.
  pub delete_restored :
      (id : String) (w : World F) (b : BacktestRun F)
      → lookup id w.runs ≡ none
      → lookup id w.records ≡ some b
      → delete id w ≡ (panics, w)
  unfolding delete get_run
  delete_restored id w b e q = elim (Bool-cases (is_final b.state)) [
    | inl k ↦ rw (e, q) (rw k (rw (not_active b.state k) refl))
    | inr k ↦ rw (e, q) (rw k refl)
  ]
