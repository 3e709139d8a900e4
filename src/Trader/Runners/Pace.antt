-- ===== src/Trader/Runners/Pace.antt =====
-- The pause between two cycles, `loop` of internal/trader/engine/engine.go.
use fxcore.Prelude.{◌≡◌, refl, true, false, some, arith, if◌then◌else◌}
use fxcore.Prelude.Int.{ℤ, pos, ltb_ℤ, ◌≤ℤ◌}
use fxcore.Model.Trader.{Status, Trader, Schedule}
use fxcore.Trader.Runners.{turn, goes_on, scheduled, interval}

at_least_three : (n : ℤ) → pos 3 ≤ℤ (if ltb_ℤ n (pos 3) then pos 3 else n)
at_least_three n = ground arith

above_three :
    (n : ℤ)
    → pos 3 ≤ℤ n
    → (if ltb_ℤ (if ltb_ℤ (pos 0) n then n else pos 60) (pos 3)
        then pos 3
        else (if ltb_ℤ (pos 0) n then n else pos 60))
      ≡ n
above_three n h = ground arith

module _ {F : Type 0} where
  -- The loop of a running trader starts a cycle in every turn. After the first it does not pause;
  -- after any other it pauses for at least three seconds, and as long as its schedule says if that is
  -- three seconds or more.
  pub turn_lem :
      (t : Trader F)
      → t.status ≡ Status.running
      → (turn true (some t) ≡ goes_on true (pos 0))
        × (turn false (some t) ≡ goes_on true (interval t))
        × (pos 3 ≤ℤ interval t)
        × ((c : Schedule) → t.schedule ≡ some c → pos 3 ≤ℤ c.interval → interval t ≡ c.interval)
  unfolding interval turn
  turn_lem t running = (
    rw running refl,
    rw running refl,
    at_least_three (scheduled t),
    λ c e h. rw (e, scheduled) (above_three c.interval h),
  )
