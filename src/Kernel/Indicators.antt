-- ===== src/Kernel/Indicators.antt =====
-- internal/kernel/indicators.go: the technical indicators. A run-time panic is `none`: an index or a
-- slice bound out of range, which a period below 0 leads to. `sqrt`, `abs` and `max` are those of
-- Go's `math`. A series that is too short gives no values, as in the source.
pub mod Lengths
pub mod Incremental
use fxcore.Prelude.{
  ℕ, zero, suc, ◌+◌, ◌-◌, Bool, true, false, ◌&&◌, ◌||◌, Option, none, some, List, [], ◌∷◌, ltb,
  leb, if◌then◌else◌, length, take, drop, last, map, is_some,
}
use fxcore.Prelude.Int.{ℤ, pos, negsuc, ◌+ℤ◌, ◌-ℤ◌, ltb_ℤ, leb_ℤ}
use fxcore.Prelude.Float.{Float64}

-- A value, or a panic.
abbrev pub Run {ℓ} : Type ℓ → Type ℓ
Run = Option

infixl 5 ◌>>=◌
abbrev pub ◌>>=◌ {ℓ κ} : {A : Type ℓ} {B : Type κ} → Run A → (A → Run B) → Run B
none >>= k = none
some a >>= k = k a

pub record Math (F : Type 0) : Type 0 where
  pub sqrt : F → F
  pub abs : F → F
  pub max : F → F → F

module _ {A : Type 0} where
  -- What `for i := n; i < len(xs); i++` reads: from an `n` below 0 the first read panics.
  abbrev pub from : ℤ → List A → Run (List A)
  from (pos n) xs = some (drop n xs)
  from (negsuc n) xs = none

  -- What `for i := 0; i < n; i++` reads, if there are `n` elements.
  abbrev pub first : ℤ → List A → List A
  first (pos n) xs = take n xs
  first (negsuc n) xs = []

  -- `xs[len(xs)-n:]`
  abbrev pub window : ℤ → List A → Run (List A)
  window (pos n) xs = some (drop (length xs - n) xs)
  window (negsuc n) xs = none

pub record Macd (F : Type 0) : Type 0 where
  pub dif : F
  pub dea : F
  pub hist : F

pub record Band (F : Type 0) : Type 0 where
  pub mid : F
  pub upper : F
  pub lower : F

abbrev pub map_option {ℓ κ} : {A : Type ℓ} {B : Type κ} → (A → B) → Option A → Option B
map_option g none = none
map_option g (some a) = some (g a)

module _ {F : Type 0} ⦃f : Float64 F⦄ where
  abbrev pub nil : F
  nil = f.dec 0 0

  -- A value that is not there is 0.
  abbrev pub or_nil : Option F → F
  or_nil none = nil
  or_nil (some x) = x

  abbrev pub sum_from : F → List F → F
  sum_from acc [] = acc
  sum_from acc (x ∷ xs) = sum_from (f.add acc x) xs

  abbrev pub mean : ℤ → List F → F
  mean period xs = f.div (sum_from nil xs) (f.of_int period)

  abbrev pub ema_step : F → F → F → F
  ema_step alpha prev c = f.add (f.mul alpha c) (f.mul (f.sub (f.dec 1 0) alpha) prev)

  unfoldable pub ema_loop : F → F → List F → List F
  ema_loop alpha prev [] = []
  ema_loop alpha prev (c ∷ cs) = let next = ema_step alpha prev c in next ∷ ema_loop alpha next cs

  abbrev pub ema_alpha : ℤ → F
  ema_alpha period = f.div (f.dec 2 0) (f.of_int (period +ℤ pos 1))

  unfoldable pub ema_series : List F → ℤ → Run (List F)
  ema_series closes period =
      if ltb_ℤ (pos (length closes)) period
      then some []
      else from period closes >>= λ rest.
          let seed = mean period (first period closes) in
          some (seed ∷ ema_loop (ema_alpha period) seed rest)

  -- A value and true, or false.
  unfoldable pub ema_last : List F → ℤ → Run (Option F)
  ema_last closes period = ema_series closes period >>= λ series. some (last series)

  -- The loop from index 25, at `k` prices read with those `todo` to read.
  dif_loop : List F → ℕ → List F → Run (List F)
  dif_loop closes k [] = some []
  dif_loop closes k (c ∷ todo) =
      let seen = take (suc k) closes in
      ema_last seen (pos 12) >>= λ fast. ema_last seen (pos 26) >>= λ slow.
      dif_loop closes (suc k) todo >>= λ rest. some (f.sub (or_nil fast) (or_nil slow) ∷ rest)

  abbrev macd_of : F → F → Macd F
  macd_of dif dea = record { dif = dif; dea = dea; hist = f.mul (f.sub dif dea) (f.dec 2 0) }

  -- The end of `macd`, from the series of differences on.
  macd_end : F → List F → Run (Option (Macd F))
  macd_end dif difs =
      if ltb (length difs) 9
      then some none
      else ema_last difs (pos 9) >>= λ dea. some (map_option (macd_of dif) dea)

  unfoldable pub macd : List F → Run (Option (Macd F))
  unfolding dif_loop macd_end
  macd closes = ema_last closes (pos 12) >>= λ fast. ema_last closes (pos 26) >>= λ slow.
      if is_some fast && is_some slow
      then (dif_loop closes 25 (drop 25 closes) >>= macd_end (f.sub (or_nil fast) (or_nil slow)))
      else some none

  -- The gain and the loss of one step.
  abbrev change : F → F → F × F
  change before after =
      let chg = f.sub after before in if f.le nil chg then (chg, nil) else (nil, f.sub nil chg)

  abbrev pub changes_from : F → List F → List (F × F)
  changes_from before [] = []
  changes_from before (x ∷ xs) = change before x ∷ changes_from x xs

  abbrev pub changes : List F → List (F × F)
  changes [] = []
  changes (x ∷ xs) = changes_from x xs

  abbrev pub rsi_value : F → F → F
  rsi_value gain loss =
      if f.eq loss nil
      then f.dec 100 0
      else f.sub (f.dec 100 0) (f.div (f.dec 100 0) (f.add (f.dec 1 0) (f.div gain loss)))

  -- Wilder's average, one step on.
  abbrev pub smooth : ℤ → F → F → F
  smooth period avg x = f.div (f.add (f.mul avg (f.of_int (period -ℤ pos 1))) x) (f.of_int period)

  unfoldable pub rsi_loop : ℤ → F → F → List (F × F) → List F
  rsi_loop period gain loss [] = []
  rsi_loop period gain loss (c ∷ cs) =
      let gain' = smooth period gain c.0 in
      let loss' = smooth period loss c.1 in rsi_value gain' loss' ∷ rsi_loop period gain' loss' cs

  unfoldable pub rsi_series : List F → ℤ → Run (List F)
  rsi_series closes period =
      if leb_ℤ (pos (length closes)) period
      then some []
      else from period (changes closes) >>= λ rest.
          let seed = first period (changes closes) in
          let gain = mean period (map (λ c. c.0) seed) in
          let loss = mean period (map (λ c. c.1) seed) in
          some (rsi_value gain loss ∷ rsi_loop period gain loss rest)

  unfoldable pub rsi_last : List F → ℤ → Run (Option F)
  rsi_last closes period = rsi_series closes period >>= λ series. some (last series)

  abbrev squares_from : F → F → List F → F
  squares_from mid acc [] = acc
  squares_from mid acc (c ∷ cs) = let d = f.sub c mid in squares_from mid (f.add acc (f.mul d d)) cs

  module _ ⦃m : Math F⦄ where
    abbrev band_of : ℤ → List F → Band F
    band_of period xs =
        let mid = mean period xs in
        let variance = squares_from mid nil xs in
        let std = if ltb_ℤ (pos 1) period then m.sqrt (f.div variance (f.of_int period)) else nil in
        record {
          mid = mid;
          upper = f.add mid (f.mul (f.dec 2 0) std);
          lower = f.sub mid (f.mul (f.dec 2 0) std);
        }

    unfoldable pub boll : List F → ℤ → Run (Option (Band F))
    boll closes period =
        if ltb_ℤ (pos (length closes)) period
        then some none
        else window period closes >>= λ xs. some (some (band_of period xs))

    abbrev true_range : F → F → F → F
    true_range before high low =
        m.max (f.sub high low) (m.max (m.abs (f.sub high before)) (m.abs (f.sub low before)))

    -- The true ranges, `before` the price of the step before: a high or low that is missing is a
    -- read out of range.
    unfoldable pub ranges : F → List F → List F → List F → Run (List F)
    ranges before highs lows [] = some []
    ranges before (h ∷ highs) (l ∷ lows) (c ∷ closes) =
        ranges c highs lows closes >>= λ rest. some (true_range before h l ∷ rest)
    ranges before [] lows (c ∷ closes) = none
    ranges before (h ∷ highs) [] (c ∷ closes) = none

    unfoldable pub atr_loop : ℤ → F → List F → List F
    atr_loop period prev [] = []
    atr_loop period prev (x ∷ xs) =
        let next = smooth period prev x in next ∷ atr_loop period next xs

    -- `make` refuses the capacity -1 that no prices at all would give.
    abbrev true_ranges : List F → List F → List F → Run (List F)
    true_ranges highs lows [] = none
    true_ranges highs lows (c ∷ closes) = ranges c (drop 1 highs) (drop 1 lows) closes

    unfoldable pub atr_series : List F → List F → List F → ℤ → Run (List F)
    atr_series highs lows closes period =
        if leb_ℤ (pos (length highs)) period
          || (leb_ℤ (pos (length lows)) period || leb_ℤ (pos (length closes)) period)
        then some []
        else true_ranges highs lows closes >>= λ trs.
            if ltb_ℤ (pos (length trs)) period
            then some []
            else from period trs >>= λ rest.
                let seed = mean period (first period trs) in some (seed ∷ atr_loop period seed rest)

    unfoldable pub atr_last : List F → List F → List F → ℤ → Run (Option F)
    atr_last highs lows closes period =
        atr_series highs lows closes period >>= λ series. some (last series)

  abbrev volume_ratio : Option F → ℕ → List F → Option (F × F × F)
  volume_ratio none window xs = none
  volume_ratio (some now) window xs =
      let avg = mean (pos window) (take window xs) in
      if f.eq avg nil then none else some (now, avg, f.div now avg)

  -- The last volume, the mean of the `window` before it, and their ratio. The window is a constant,
  -- 20, at the one call.
  unfoldable pub volume_stats : List F → ℕ → Option (F × F × F)
  volume_stats volumes window =
      if ltb (length volumes) (window + 1)
      then none
      else volume_ratio (last volumes) window (drop (length volumes - window - 1) volumes)
