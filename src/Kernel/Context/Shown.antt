-- ===== src/Kernel/Context/Shown.antt =====
-- What is shown of the candles, and the periods that make the building of the lines panic.
use fxcore.Prelude.{
  ℕ, ◌-◌, true, none, some, List, [], ◌∷◌, ◌++◌, map, ltb, length, drop, reverse, All, Bool-cases,
  inl, inr, ◌≡◌, refl, sym, ap, ◌∙◌, arith,
}
use mathlib.Core.List.{append-nil}
use fxcore.Prelude.Int.{ℤ, pos, negsuc, ltb_ℤ}
use fxcore.Prelude.Float.{Float64}
use fxcore.Model.Strategy.{IndicatorConfig}
use fxcore.Kernel.Indicators.{
  Math, ema_series, ema_last, macd, rsi_last, boll, atr_last, volume_stats,
}
use fxcore.Kernel.Indicators.Lengths.{ema_last_lem, macd_gives, rsi_series-Gives, atr_series-Gives}
use fxcore.Kernel.Context.{
  Kline, Line, ema_values, rsi_values, atr_values, macd_values, volume_values, open_interest,
  funding_rate, latest, line_if, market_lines, candle_lines, indicator_lines, build_kline_context,
}
use fxcore.Kernel.Context.Quiet.{
  All-map, Returns, IsPeriod, candles_of, candles_of-append, candles_of-candles, Quiet,
  values_of-Returns, values_of-panics, value_line-Quiet, opt_line-Quiet, opt_line-quiet,
  switched-Quiet, quiet-append, boll_lines-Quiet, length-map,
}

-- Every period of every list is 0 or more.
abbrev pub HasPeriods : IndicatorConfig → Type 0
HasPeriods ind =
    All IsPeriod ind.ema_periods
    × All IsPeriod ind.rsi_periods
    × All IsPeriod ind.boll_periods
    × All IsPeriod ind.atr_periods

module _ {F : Type 0} ⦃f : Float64 F⦄ where
  ema_last-Returns : (closes : List F) (p : ℤ) → IsPeriod p → Returns (ema_last closes p)
  ema_last-Returns closes p (n, e) = let (o, g, _) = ema_last_lem closes n in rw e (o, g)

  ema_last-panics : (closes : List F) (n : ℕ) → ema_last closes (negsuc n) ≡ none
  unfolding ema_last ema_series
  ema_last-panics closes n = ground arith

  rsi_last-Returns : (closes : List F) (p : ℤ) → IsPeriod p → Returns (rsi_last closes p)
  unfolding rsi_last
  rsi_last-Returns closes p (n, e) =
      let (xs, g, _) = rsi_series-Gives closes n in rw (e, g) (_, refl)

  market_lines-quiet :
      (ks : List (Kline F)) (ind : IndicatorConfig) → candles_of (market_lines ks ind) ≡ []
  market_lines-quiet ks ind =
      let volume = volume_stats (map (λ (k : Kline F). k.volume) ks) 20 in
      let oi = latest (λ k. k.oi) (reverse ks) in
      let funding = latest (λ k. k.funding) (reverse ks) in
      let on_volume = line_if ind.enable_volume volume_values volume in
      let on_oi = line_if ind.enable_oi open_interest oi in
      let on_funding = line_if ind.enable_funding_rate funding_rate funding in
      quiet-append on_volume (on_oi ++ on_funding)
        (opt_line-quiet ind.enable_volume volume_values volume (λ _. refl))
        (quiet-append on_oi on_funding (opt_line-quiet ind.enable_oi open_interest oi (λ _. refl))
          (opt_line-quiet ind.enable_funding_rate funding_rate funding (λ _. refl)))

  module _ ⦃m : Math F⦄ where
    boll-Returns : (closes : List F) (p : ℤ) → IsPeriod p → Returns (boll closes p)
    unfolding boll
    boll-Returns closes p (n, e) = elim (Bool-cases (ltb_ℤ (pos (length closes)) (pos n))) [
      | inl short ↦ rw (e, short) (none, refl)
      | inr enough ↦ rw (e, enough) (_, refl)
    ]

    atr_last-Returns :
        (highs lows closes : List F)
        → length highs ≡ length closes
        → length lows ≡ length closes
        → (p : ℤ) → IsPeriod p
        → Returns (atr_last highs lows closes p)
    unfolding atr_last
    atr_last-Returns highs lows closes eh el p (n, e) =
        let (xs, g, _) = atr_series-Gives highs lows closes n eh el in rw (e, g) (_, refl)

    indicator_lines-Quiet :
        (ks : List (Kline F)) (ind : IndicatorConfig)
        → HasPeriods ind
        → Quiet (indicator_lines ks ind)
    indicator_lines-Quiet ks ind (pe, pr, pb, pa) =
        let closes = map (λ (k : Kline F). k.close) ks in
        let highs = map (λ (k : Kline F). k.high) ks in
        let lows = map (λ (k : Kline F). k.low) ks in
        let same =
          λ (g : Kline F → F). length-map g ks ∙ sym (length-map (λ (k : Kline F). k.close) ks) in
        let atr = atr_last-Returns highs lows closes (same (λ k. k.high)) (same (λ k. k.low)) in
        let (l1, e1, q1) =
          value_line-Quiet ind.enable_ema ema_values _ (λ _. refl)
            (values_of-Returns (ema_last closes) _
              (All-map ind.ema_periods (ema_last-Returns closes) pe)) in
        let (l2, e2, q2) =
          let (o, g, _) = macd_gives closes in
          opt_line-Quiet ind.enable_macd macd_values (macd closes) (λ _. refl) (o, g) in
        let (l3, e3, q3) =
          value_line-Quiet ind.enable_rsi rsi_values _ (λ _. refl)
            (values_of-Returns (rsi_last closes) _
              (All-map ind.rsi_periods (rsi_last-Returns closes) pr)) in
        let (l4, e4, q4) =
          switched-Quiet ind.enable_boll _ (
            boll_lines-Quiet (boll closes) _ (All-map ind.boll_periods (boll-Returns closes) pb)) in
        let (l5, e5, q5) =
          value_line-Quiet ind.enable_atr atr_values _ (λ _. refl)
            (values_of-Returns (atr_last highs lows closes) _ (All-map ind.atr_periods atr pa)) in
        rw (e1, e2, e3, e4, e5)
          (
            _,
            refl,
            quiet-append l1 _ q1 (
                quiet-append l2 _ q2 (
                  quiet-append l3 _ q3
                    (quiet-append l4 _ q4 (quiet-append l5 _ q5 (market_lines-quiet ks ind))))),
          )

    candle_lines_lem :
        (ks : List (Kline F)) → candles_of (candle_lines ks) ≡ drop (length ks - 60) ks
    candle_lines_lem ks = elim (Bool-cases (ltb 60 (length ks))) [
      | inl more ↦ rw more (candles_of-candles _)
      | inr few ↦ rw few (candles_of-candles _)
    ]

    -- With no period below 0, the lines can be built for any candles, and the candles printed are
    -- the last sixty, or all of them if there are fewer, in order.
    pub context_lem :
        (ks : List (Kline F)) (ind : IndicatorConfig)
        → HasPeriods ind
        → (ls : List (Line F)) × (build_kline_context ks ind ≡ some ls)
          × (candles_of ls ≡ drop (length ks - 60) ks)
    unfolding build_kline_context
    context_lem [] ind h = ([], refl, refl)
    context_lem (k ∷ ks) ind h =
        let (ls, e, q) = indicator_lines-Quiet (k ∷ ks) ind h in
        let candles = candle_lines (k ∷ ks) in
        rw e (
          _,
          refl,
          candles_of-append candles ls
              ∙ ap (λ (c : List (Kline F)). candles_of candles ++ c) q
              ∙ append-nil (candles_of candles)
              ∙ candle_lines_lem (k ∷ ks),
        )

    -- One EMA period below 0, at any place of the list and with the EMA on, and there are no lines:
    -- with any candle at all the building panics.
    pub context_panics :
        (k : Kline F) (ks : List (Kline F)) (ind : IndicatorConfig) (before after : List ℤ) (n : ℕ)
        → ind.enable_ema ≡ true
        → ind.ema_periods ≡ before ++ negsuc n ∷ after
        → build_kline_context (k ∷ ks) ind ≡ none
    unfolding build_kline_context
    context_panics k ks ind before after n on e =
        let closes = map (λ (k : Kline F). k.close) (k ∷ ks) in
        rw
          (
            on,
            e,
            values_of-panics (ema_last closes) before (negsuc n) after (ema_last-panics closes n),
          )
          refl
