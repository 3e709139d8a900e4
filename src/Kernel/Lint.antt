-- ===== src/Kernel/Lint.antt =====
-- internal/kernel/lint.go with internal/api/v1/dto/lint.go: the static checks of a strategy. An issue
-- is its code, severity and field; its title and detail, texts for the screen, are left out. The
-- regular expression for a coin's name is written as the run over the name that it stands for.
pub mod Coins
pub mod Reflect
pub mod Clean
use Prim.Native.String.{◌++◌ as append}
use fxcore.Prelude.{
  ℕ, zero, suc, ◌+◌, Bool, true, false, ◌&&◌, ◌||◌, not, Option, none, some, String, str_eq, List,
  [], ◌∷◌, ◌++◌, ltb, leb, ◌==◌, if◌then◌else◌, length, select,
}
use fxcore.Prelude.Int.{ℤ, pos, leb_ℤ}
use fxcore.Prelude.Float.{Float64}
use fxcore.Prelude.Text.{Text, codes, contains, byte_len}
use fxcore.Model.Decision.{RiskControl}
use fxcore.Model.Strategy.{CoinSource, KlineConfig, IndicatorConfig, PromptSections, StrategyConfig}

pub data Severity : Type 0 where
  error warning : Severity

pub record LintIssue : Type 0 where
  pub code : String
  pub severity : Severity
  pub field : String

abbrev pub issue : String → Severity → String → LintIssue
issue c s f = record { code = c; severity = s; field = f }

-- The append of one issue under an `if`.
abbrev pub when : Bool → LintIssue → List LintIssue
when b i = if b then i ∷ [] else []

abbrev pub one_of : String → List String → Bool
one_of s [] = false
one_of s (t ∷ ts) = str_eq s t || one_of s ts

abbrev pub coin_types : List String
coin_types = "static" ∷ "oi_top" ∷ "oi_low" ∷ "mixed" ∷ []

abbrev pub timeframes : List String
timeframes =
    "1m" ∷ "3m" ∷ "5m" ∷ "15m" ∷ "30m" ∷ "1h" ∷ "2h" ∷ "4h" ∷ "8h" ∷ "12h" ∷ "1d" ∷ "1w" ∷ []

abbrev pub is_alnum : ℕ → Bool
is_alnum c = leb b'A' c && leb c b'Z' || leb b'a' c && leb c b'z' || leb b'0' c && leb c b'9'

-- `[A-Za-z0-9]{2,10}$`, with `n` characters read.
quote_matches : ℕ → Text → Bool
quote_matches n [] = leb 2 n && leb n 10
quote_matches n (c ∷ s) = if is_alnum c then quote_matches (suc n) s else false

-- `^[A-Za-z0-9]{2,12}-[A-Za-z0-9]{2,10}$`, with `n` characters of the first part read.
pair_matches : ℕ → Text → Bool
pair_matches n [] = false
pair_matches n (c ∷ s) =
    let quote = leb 2 n && leb n 12 && quote_matches 0 s in
    if is_alnum c then pair_matches (suc n) s else if c == b'-' then quote else false

unfoldable pub coin_matches : String → Bool
unfolding pair_matches quote_matches
coin_matches c = pair_matches 0 (codes c)

abbrev pub is_empty {ℓ} : {A : Type ℓ} → List A → Bool
is_empty [] = true
is_empty (x ∷ xs) = false

unfoldable pub lint_coin : CoinSource → List LintIssue
lint_coin cs =
    let bad = select (λ c. not (coin_matches c)) cs.static_coins in
    let dup = select (λ c. one_of c cs.excluded_coins) cs.static_coins in
    when (not (one_of cs.source_type coin_types))
      (issue "coin_ai500_deprecated" error "coin_source.source_type")
    ++ (when (str_eq cs.source_type "static" && is_empty cs.static_coins)
          (issue "coin_static_empty" error "coin_source.static_coins")
        ++ (when (not (is_empty cs.static_coins) && not (is_empty bad))
              (issue "coin_bad_format" error "coin_source.static_coins")
            ++ when (not (is_empty cs.static_coins) && not (is_empty dup))
                (issue "coin_excluded_in_static" warning "coin_source.excluded_coins")))

abbrev period_issue : String → LintIssue
period_issue path = issue "kline_period_empty" error path

abbrev pub any_data : IndicatorConfig → Bool
any_data ind =
    ind.enable_raw_klines || ind.enable_ema || ind.enable_macd || ind.enable_rsi || ind.enable_atr
    || ind.enable_boll || ind.enable_volume || ind.enable_oi || ind.enable_funding_rate

unfoldable pub lint_kline : IndicatorConfig → List LintIssue
lint_kline ind =
    when (not (one_of ind.klines.primary_timeframe timeframes))
      (issue "kline_tf_invalid" error "indicators.klines.primary_timeframe")
    ++ (when (ind.klines.enable_multi_timeframe && is_empty ind.klines.selected_timeframes)
          (issue "kline_mtf_empty" warning "indicators.klines.selected_timeframes")
        ++ (when (ind.enable_ema && is_empty ind.ema_periods)
              (period_issue "indicators.ema_periods")
            ++ (when (ind.enable_rsi && is_empty ind.rsi_periods)
                  (period_issue "indicators.rsi_periods")
                ++ (when (ind.enable_atr && is_empty ind.atr_periods)
                      (period_issue "indicators.atr_periods")
                    ++ (when (ind.enable_boll && is_empty ind.boll_periods)
                          (period_issue "indicators.boll_periods")
                        ++ when (not (any_data ind)) (issue "kline_blind" error "indicators"))))))

module _ {F : Type 0} ⦃f : Float64 F⦄ where
  abbrev nil : F
  nil = f.dec 0 0

  abbrev one : F
  one = f.dec 1 0

  unfoldable pub lint_risk : RiskControl F → List LintIssue
  lint_risk rc =
      when (leb_ℤ rc.max_positions (pos 0))
        (issue "risk_max_pos_zero" error "risk_control.max_positions")
      ++ (when (leb_ℤ rc.btc_eth_max_leverage (pos 0) || leb_ℤ rc.altcoin_max_leverage (pos 0))
            (issue "risk_leverage_zero" error "risk_control.btc_eth_max_leverage")
          ++ (when (f.lt nil rc.min_risk_reward_ratio && f.lt rc.min_risk_reward_ratio one)
                (issue "risk_rr_below_one" warning "risk_control.min_risk_reward_ratio")
              ++ (when (f.lt rc.min_confidence nil || f.lt one rc.min_confidence)
                    (issue "risk_confidence_out" error "risk_control.min_confidence")
                  ++ when (f.le rc.max_margin_usage nil)
                      (issue "risk_margin_zero" error "risk_control.max_margin_usage"))))

-- The phrases that ask the model to leave its analysis out.
abbrev pub contract_phrases : List String
contract_phrases =
    "不要输出" ∷ "只输出决策" ∷ "不要分析" ∷ "不分析" ∷ "无需分析" ∷ "直接给结论" ∷ "省略分析" ∷ "不要解释" ∷ "no reasoning"
    ∷ "don't explain" ∷ []

abbrev pub mentions_any : Text → List String → Bool
mentions_any s [] = false
mentions_any s (p ∷ ps) = contains s (codes p) || mentions_any s ps

abbrev pub section_texts : Option PromptSections → List String
section_texts none = []
section_texts (some p) =
    p.role_definition ∷ p.trading_frequency ∷ p.entry_standards ∷ p.decision_process ∷ []

abbrev pub all_empty : List String → Bool
all_empty [] = true
all_empty (s ∷ ss) = str_eq s "" && all_empty ss

abbrev newline : Text
newline = 10 ∷ []

abbrev pub join_sections : Option PromptSections → Text
join_sections none = []
join_sections (some p) =
    codes p.role_definition
    ++ (newline
        ++ (codes p.trading_frequency
            ++ (newline ++ (codes p.entry_standards ++ (newline ++ codes p.decision_process)))))

-- One round of the loop over the named texts.
unfoldable pub lint_section : String → Text → List LintIssue
lint_section name s =
    if is_empty s
    then []
    else when (ltb 2_000 (byte_len s)) (issue "text_oversize" warning name)
      ++ when (mentions_any s contract_phrases) (issue "text_contract" error name)

unfoldable pub lint_variant : String → String → List LintIssue
lint_variant variant tf =
    if str_eq variant "scalping"
    then when (one_of tf ("1d" ∷ "4h" ∷ "1w" ∷ []))
        (issue "text_variant_tf" warning "prompt_variant")
    else if str_eq variant "conservative"
    then when (one_of tf ("1m" ∷ "5m" ∷ [])) (issue "text_variant_tf" warning "prompt_variant")
    else []

module _ {F : Type 0} where
  -- Go takes a map's entries in any order: `flip` is the order of the two texts.
  unfoldable pub lint_text : Bool → StrategyConfig F → List LintIssue
  lint_text flip cfg =
      let custom = lint_section "custom_prompt" (codes cfg.custom_prompt) in
      let sections = lint_section "prompt_sections" (join_sections cfg.prompt_sections) in
      when (all_empty (cfg.custom_prompt ∷ section_texts cfg.prompt_sections))
        (issue "text_all_empty" warning "prompt_sections")
      ++ ((if flip then sections ++ custom else custom ++ sections)
          ++ lint_variant cfg.prompt_variant cfg.indicators.klines.primary_timeframe)

  unfoldable pub lint : ⦃f : Float64 F⦄ → Bool → StrategyConfig F → List LintIssue
  lint flip cfg =
      lint_coin cfg.coin_source
      ++ (lint_kline cfg.indicators ++ (lint_risk cfg.risk_control ++ lint_text flip cfg))
