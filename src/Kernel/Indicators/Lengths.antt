-- ===== src/Kernel/Indicators/Lengths.antt =====
-- How many values each series has, and which periods make it panic.
use fxcore.Prelude.{
  ℕ, suc, ◌+◌, ◌-◌, ◌≤◌, ◌<◌, false, ◌&&◌, ◌||◌, Option, none, some, List, [], ◌∷◌, ltb, leb,
  length, take, drop, last, length-drop, is_some, Bool-cases, Option-cases, inl, inr, ◌≡◌, refl, ap,
  ◌∙◌, arith,
}
use fxcore.Prelude.Int.{ℤ, pos, negsuc, ltb_ℤ, leb_ℤ}
use fxcore.Prelude.Float.{Float64}
use fxcore.Kernel.Indicators.{
  Run, Math, changes_from, changes, ema_loop, ema_series, ema_last, rsi_loop, rsi_series, ranges,
  true_ranges, atr_loop, atr_series, smooth, mean, Macd, macd_of, map_option, or_nil, dif_loop,
  macd_end, macd, ema_alpha, ema_step, boll,
}

-- The run gives a list of `n` values.
abbrev pub Gives : {A : Type 0} → ℕ → Run (List A) → Type 0
Gives {A} n r = (xs : List A) × (r ≡ some xs) × (length xs ≡ n)

some_last : {A : Type 0} (xs : List A) → is_some (last xs) ≡ ltb 0 (length xs)
some_last [] = refl
some_last (x ∷ xs) = elim (Option-cases (last xs)) [
  | inl e ↦ rw e (ground arith)
  | inr (y, e) ↦ rw e (ground arith)
]

some_map : {A B : Type 0} (g : A → B) (o : Option A) → is_some (map_option g o) ≡ is_some o
some_map g none = refl
some_map g (some a) = refl

module _ {F : Type 0} ⦃f : Float64 F⦄ where
  length-ema_loop : (alpha prev : F) (xs : List F) → length (ema_loop alpha prev xs) ≡ length xs
  unfolding ema_loop
  length-ema_loop alpha prev [] = refl
  length-ema_loop alpha prev (x ∷ xs) = ap suc (length-ema_loop alpha (ema_step alpha prev x) xs)

  length-rsi_loop : (p : ℤ) (g l : F) (cs : List (F × F)) → length (rsi_loop p g l cs) ≡ length cs
  unfolding rsi_loop
  length-rsi_loop p g l [] = refl
  length-rsi_loop p g l (c ∷ cs) = ap suc (length-rsi_loop p (smooth p g c.0) (smooth p l c.1) cs)

  length-changes_from : (x : F) (xs : List F) → length (changes_from x xs) ≡ length xs
  length-changes_from x [] = refl
  length-changes_from x (y ∷ xs) = ap suc (length-changes_from y xs)

  length-changes : (xs : List F) → length (changes xs) ≡ length xs - 1
  length-changes [] = omega arith
  length-changes (x ∷ xs) = omega (arith, length-changes_from x xs)

  ema_series-Gives :
      (closes : List F) (p : ℕ) → Gives (length closes + 1 - p) (ema_series closes (pos p))
  unfolding ema_series
  ema_series-Gives closes p = elim (Bool-cases (ltb_ℤ (pos (length closes)) (pos p))) [
    | inl e ↦ rw e ([], refl, ground arith)
    | inr e ↦ rw e (
      _,
      refl,
      ground (
        arith,
        length-ema_loop (ema_alpha (pos p)) (mean (pos p) (take p closes)) (drop p closes),
        length-drop p closes,
      ),
    )
  ]

  pub rsi_series-Gives :
      (closes : List F) (p : ℕ) → Gives (length closes - p) (rsi_series closes (pos p))
  unfolding rsi_series
  rsi_series-Gives closes p = elim (Bool-cases (leb_ℤ (pos (length closes)) (pos p))) [
    | inl e ↦ rw e ([], refl, ground arith)
    | inr e ↦
        let inside : p < length closes = ground arith in
        rw e (
          _,
          refl,
          omega (arith, length-rsi_loop, length-drop p (changes closes), length-changes closes),
        )
  ]

  module _ ⦃m : Math F⦄ where
    length-atr_loop : (p : ℤ) (prev : F) (xs : List F) → length (atr_loop p prev xs) ≡ length xs
    unfolding atr_loop
    length-atr_loop p prev [] = refl
    length-atr_loop p prev (x ∷ xs) = ap suc (length-atr_loop p (smooth p prev x) xs)

    ranges-Gives :
        (before : F) (highs lows closes : List F)
        → length closes ≤ length highs
        → length closes ≤ length lows
        → Gives (length closes) (ranges before highs lows closes)
    unfolding ranges
    ranges-Gives before highs lows [] p q = ([], refl, refl)
    ranges-Gives before [] lows (c ∷ closes) p q = absurd (omega arith)
    ranges-Gives before (h ∷ highs) [] (c ∷ closes) p q = absurd (omega arith)
    ranges-Gives before (h ∷ highs) (l ∷ lows) (c ∷ closes) p q =
        let (xs, e, n) = ranges-Gives c highs lows closes (omega arith) (omega arith) in
        rw e (_, refl, ap suc n)

    true_ranges-Gives :
        (highs lows closes : List F)
        → 0 < length closes
        → length highs ≡ length closes
        → length lows ≡ length closes
        → Gives (length closes - 1) (true_ranges highs lows closes)
    true_ranges-Gives highs lows [] any p q = absurd (omega arith)
    true_ranges-Gives highs lows (c ∷ closes) any p q =
        let (xs, e, n) =
          ranges-Gives c (drop 1 highs) (drop 1 lows) closes (omega (arith, length-drop 1 highs))
            (omega (arith, length-drop 1 lows)) in
        (xs, e, omega arith)

    pub atr_series-Gives :
        (highs lows closes : List F) (p : ℕ)
        → length highs ≡ length closes
        → length lows ≡ length closes
        → Gives (length closes - p) (atr_series highs lows closes (pos p))
    unfolding atr_series
    atr_series-Gives highs lows closes p eh el =
        elim (Bool-cases (
          leb_ℤ (pos (length highs)) (pos p)
          || (leb_ℤ (pos (length lows)) (pos p) || leb_ℤ (pos (length closes)) (pos p)))) [
            | inl e ↦ rw e ([], refl, ground arith)
            | inr e ↦
                let inside : p < length closes = ground arith in
                let (trs, r, n) = true_ranges-Gives highs lows closes (omega arith) eh el in
                let enough : ltb_ℤ (pos (length trs)) (pos p) ≡ false = ground arith in
                rw (e, r, enough) (_, refl, omega (arith, length-atr_loop, length-drop p trs))
          ]

    -- Over prices of equal number, a period of 0 or more gives what it should: the EMA a value for
    -- each price from the period's last one on, RSI and ATR one fewer, and none if there are too few
    -- prices. So no index is out of range.
    pub series_lengths :
        (highs lows closes : List F) (p : ℕ)
        → length highs ≡ length closes
        → length lows ≡ length closes
        → Gives (length closes + 1 - p) (ema_series closes (pos p))
          × Gives (length closes - p) (rsi_series closes (pos p))
          × Gives (length closes - p) (atr_series highs lows closes (pos p))
    series_lengths highs lows closes p eh el = (
      ema_series-Gives closes p,
      rsi_series-Gives closes p,
      atr_series-Gives highs lows closes p eh el,
    )

    atr_negative :
        (highs lows closes : List F) (n : ℕ) → atr_series highs lows closes (negsuc n) ≡ none
    unfolding atr_series
    atr_negative highs lows closes n =
        let tests : (leb (length highs + suc n) 0
              || (leb (length lows + suc n) 0 || leb (length closes + suc n) 0))
            ≡ false =
          ground arith in
        elim (Option-cases (true_ranges highs lows closes)) [
          | inl e ↦ rw (tests, e) refl
          | inr (trs, e) ↦ rw (tests, e) (ground arith)
        ]

    -- A period below 0 panics in every indicator, whatever the prices.
    pub negative_panics :
        (highs lows closes : List F) (n : ℕ)
        → (ema_series closes (negsuc n) ≡ none)
          × (rsi_series closes (negsuc n) ≡ none)
          × (boll closes (negsuc n) ≡ none)
          × (atr_series highs lows closes (negsuc n) ≡ none)
    unfolding ema_series rsi_series boll
    negative_panics highs lows closes n =
        (ground arith, ground arith, ground arith, atr_negative highs lows closes n)

  pub ema_last_lem :
      (closes : List F) (p : ℕ)
      → (o : Option F) × (ema_last closes (pos p) ≡ some o) × (is_some o ≡ leb p (length closes))
  unfolding ema_last
  ema_last_lem closes p =
      let (xs, e, n) = ema_series-Gives closes p in
      (last xs, rw e refl, some_last xs ∙ ground arith)

  dif_loop-Gives :
      (closes : List F) (k : ℕ) (todo : List F) → Gives (length todo) (dif_loop closes k todo)
  unfolding dif_loop
  dif_loop-Gives closes k [] = ([], refl, refl)
  dif_loop-Gives closes k (c ∷ todo) =
      let (fast, e, _) = ema_last_lem (take (suc k) closes) 12 in
      let (slow, g, _) = ema_last_lem (take (suc k) closes) 26 in
      let (rest, h, n) = dif_loop-Gives closes (suc k) todo in rw (e, g, h) (_, refl, ap suc n)

  macd_end-gives :
      (dif : F) (difs : List F)
      → (o : Option (Macd F)) × (macd_end dif difs ≡ some o) × (is_some o ≡ leb 9 (length difs))
  unfolding macd_end
  macd_end-gives dif difs =
      let (dea, e, n) = ema_last_lem difs 9 in
      elim (Bool-cases (ltb (length difs) 9)) [
        | inl few ↦ rw few (none, refl, ground arith)
        | inr enough ↦
            rw (enough, e) (map_option (macd_of dif) dea, refl, some_map (macd_of dif) dea ∙ n)
      ]

  -- MACD never panics, and it gives its three values exactly when there are 34 prices or more.
  pub macd_gives :
      (closes : List F)
      → (o : Option (Macd F)) × (macd closes ≡ some o) × (is_some o ≡ leb 34 (length closes))
  unfolding macd
  macd_gives closes =
      let (fast, e, n) = ema_last_lem closes 12 in
      let (slow, g, m) = ema_last_lem closes 26 in
      let (difs, h, k) = dif_loop-Gives closes 25 (drop 25 closes) in
      let (o, r, w) = macd_end-gives (f.sub (or_nil fast) (or_nil slow)) difs in
      elim (Bool-cases (is_some fast && is_some slow)) [
        | inl both ↦ rw (e, g, both, h) (o, r, w ∙ ground (arith, length-drop 25 closes))
        | inr few ↦ rw (e, g, few) (none, refl, ground arith)
      ]
