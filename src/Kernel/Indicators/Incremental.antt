-- ===== src/Kernel/Indicators/Incremental.antt =====
-- A new price at the end of the prices adds one value to the EMA and changes none before it.
use fxcore.Prelude.{
  ℕ, ◌≤◌, false, some, List, [], ◌∷◌, ◌++◌, length, length-append, take, drop, last, last-cons,
  take-append_within, drop-append_within, ◌≡◌, refl, sym, ap, subst, ◌∙◌, arith,
}
use fxcore.Prelude.Int.{pos, ltb_ℤ}
use fxcore.Prelude.Float.{Float64}
use fxcore.Kernel.Indicators.{mean, ema_alpha, ema_step, ema_loop, ema_series}

module _ {F : Type 0} ⦃f : Float64 F⦄ where
  ema_loop-append :
      (alpha prev : F) (xs : List F) (c v : F)
      → last (prev ∷ ema_loop alpha prev xs) ≡ some v
      → ema_loop alpha prev (xs ++ c ∷ []) ≡ ema_loop alpha prev xs ++ ema_step alpha v c ∷ []
  unfolding ema_loop
  ema_loop-append alpha prev [] c v h = ap (λ (w : F). ema_step alpha w c ∷ []) (cc h)
  ema_loop-append alpha prev (x ∷ xs) c v h =
      let now = ema_step alpha prev x in
      ap (◌∷◌ now)
        (ema_loop-append alpha now xs c v (sym (last-cons prev now (ema_loop alpha now xs)) ∙ h))

  abbrev seed : ℕ → List F → F
  seed p closes = mean (pos p) (take p closes)

  ema_series_lem :
      (closes : List F) (p : ℕ)
      → p ≤ length closes
      → ema_series closes (pos p)
        ≡ some (seed p closes ∷ ema_loop (ema_alpha (pos p)) (seed p closes) (drop p closes))
  unfolding ema_series
  ema_series_lem closes p h =
      let enough : ltb_ℤ (pos (length closes)) (pos p) ≡ false = ground arith in rw enough refl

  -- With as many prices as the period or more, the series over one more price is the series before,
  -- with one step of the recurrence from its last value at the end.
  pub ema_series-append :
      (closes : List F) (c : F) (p : ℕ) (series : List F) (v : F)
      → p ≤ length closes
      → ema_series closes (pos p) ≡ some series
      → last series ≡ some v
      → ema_series (closes ++ c ∷ []) (pos p)
        ≡ some (series ++ ema_step (ema_alpha (pos p)) v c ∷ [])
  ema_series-append closes c p series v h e l =
      let same : series
          ≡ seed p closes ∷ ema_loop (ema_alpha (pos p)) (seed p closes) (drop p closes) =
        cc (ema_series_lem closes p h) in
      let more =
        ema_series_lem (closes ++ c ∷ []) p (omega (arith, length-append closes (c ∷ []))) in
      let step =
        ema_loop-append (ema_alpha (pos p)) (seed p closes) (drop p closes) c v
          (subst (λ (xs : List F). last xs ≡ some v) same l) in
      rw
        (
          more,
          take-append_within p closes (c ∷ []) h,
          drop-append_within p closes (c ∷ []) h,
          step,
          same,
        )
        refl
