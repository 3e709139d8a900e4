-- ===== src/Kernel/Context.antt =====
-- internal/kernel/indicators.go from `BuildKlineContext` on: what the model is told of the market, as
-- its lines with the values that they print. The format of a line is left out.
pub mod Quiet
pub mod Shown
use fxcore.Prelude.{
  ℕ, zero, suc, ◌+◌, ◌-◌, Bool, true, false, ◌&&◌, not, Option, none, some, List, [], ◌∷◌, ◌++◌,
  map, ltb, if◌then◌else◌, length, drop, reverse,
}
use fxcore.Prelude.Int.{ℤ}
use fxcore.Prelude.Float.{Float64}
use fxcore.Model.Strategy.{IndicatorConfig}
use fxcore.Kernel.Indicators.{
  Run, ◌>>=◌, Math, Macd, Band, nil, ema_last, macd, rsi_last, boll, atr_last, volume_stats,
}

-- `dto.KlineDTO`
pub record Kline (F : Type 0) : Type 0 where
  pub timestamp : ℤ
  pub open_price : F
  pub high : F
  pub low : F
  pub close : F
  pub volume : F
  pub oi : F
  pub funding : F

pub data Line (F : Type 0) : Type 0 where
  header : Line F
  omitted : ℕ → Line F
  candle : Kline F → Line F
  ema_values rsi_values atr_values : List (ℤ × F) → Line F
  macd_values : Macd F → Line F
  boll_values : ℤ → Band F → Line F
  volume_values : F × F × F → Line F
  open_interest funding_rate : F → Line F

module _ {F : Type 0} where
  abbrev with_value : ℤ → Option F → List (ℤ × F) → List (ℤ × F)
  with_value p none rest = rest
  with_value p (some v) rest = (p, v) ∷ rest

  -- The loop over the periods of an indicator with one value each.
  unfoldable pub values_of : (ℤ → Run (Option F)) → List ℤ → Run (List (ℤ × F))
  values_of value [] = some []
  values_of value (p ∷ ps) =
      value p >>= λ v. values_of value ps >>= λ rest. some (with_value p v rest)

  abbrev pub value_line : (List (ℤ × F) → Line F) → List (ℤ × F) → List (Line F)
  value_line line [] = []
  value_line line (v ∷ vs) = line (v ∷ vs) ∷ []

  abbrev pub opt_line : {A : Type 0} → (A → Line F) → Option A → List (Line F)
  opt_line line none = []
  opt_line line (some a) = line a ∷ []

  unfoldable pub boll_lines : (ℤ → Run (Option (Band F))) → List ℤ → Run (List (Line F))
  boll_lines band [] = some []
  boll_lines band (p ∷ ps) =
      band p >>= λ b. boll_lines band ps >>= λ rest. some (opt_line (boll_values p) b ++ rest)

  -- Lines under a switch.
  abbrev pub switched : Bool → Run (List (Line F)) → Run (List (Line F))
  switched on lines = if on then lines else some []

module _ {F : Type 0} ⦃f : Float64 F⦄ where
  -- The latest value that is not 0.
  abbrev pub latest : (Kline F → F) → List (Kline F) → Option F
  latest field [] = none
  latest field (k ∷ ks) =
      let rest = latest field ks in if not (f.eq (field k) nil) then some (field k) else rest

  abbrev pub candle_lines : List (Kline F) → List (Line F)
  candle_lines ks =
      (if ltb 60 (length ks) then omitted (length ks - 60) ∷ [] else [])
      ++ map candle (drop (length ks - 60) ks)

  abbrev pub line_if : {A : Type 0} → Bool → (A → Line F) → Option A → List (Line F)
  line_if on line value = if on then opt_line line value else []

  -- The lines of the volume, the open interest and the funding rate.
  abbrev pub market_lines : List (Kline F) → IndicatorConfig → List (Line F)
  market_lines ks ind =
      line_if ind.enable_volume volume_values (volume_stats (map (λ (k : Kline F). k.volume) ks) 20)
      ++ (line_if ind.enable_oi open_interest (latest (λ k. k.oi) (reverse ks))
          ++ line_if ind.enable_funding_rate funding_rate (latest (λ k. k.funding) (reverse ks)))

  module _ ⦃m : Math F⦄ where
    abbrev pub indicator_lines : List (Kline F) → IndicatorConfig → Run (List (Line F))
    indicator_lines ks ind =
        let closes = map (λ (k : Kline F). k.close) ks in
        let highs = map (λ (k : Kline F). k.high) ks in
        let lows = map (λ (k : Kline F). k.low) ks in
        switched ind.enable_ema
          (values_of (ema_last closes) ind.ema_periods >>= λ vs. some (value_line ema_values vs))
        >>= λ emas.
            switched ind.enable_macd (macd closes >>= λ v. some (opt_line macd_values v))
            >>= λ macds.
                switched ind.enable_rsi (
                  values_of (rsi_last closes) ind.rsi_periods >>= λ vs.
                  some (value_line rsi_values vs))
                >>= λ rsis.
                    switched ind.enable_boll (boll_lines (boll closes) ind.boll_periods)
                    >>= λ bolls.
                        switched ind.enable_atr (
                          values_of (atr_last highs lows closes) ind.atr_periods >>= λ vs.
                          some (value_line atr_values vs))
                        >>= λ atrs.
                            some (
                              emas ++ (macds ++ (rsis ++ (bolls ++ (atrs ++ market_lines ks ind)))))

    unfoldable pub build_kline_context : List (Kline F) → IndicatorConfig → Run (List (Line F))
    build_kline_context [] ind = some []
    build_kline_context (k ∷ ks) ind =
        indicator_lines (k ∷ ks) ind >>= λ lines. some (header ∷ (candle_lines (k ∷ ks) ++ lines))
