-- ===== src/Kernel/Lint/Clean.antt =====
-- When the checks find nothing.
use fxcore.Prelude.{
  ◌≤◌, Bool, true, false, ◌&&◌, String, str_eq, eq_iff, List, [], ◌∷◌, ◌++◌, if◌then◌else◌,
  Bool-cases, All, ◌≡◌, ◌≢◌, ◌↔◌, ◌⊎◌, inl, inr, refl, sym, ◌∙◌, arith, and_left, and_right,
}
use mathlib.Core.Bool.{false≢true}
use fxcore.Prelude.Int.{ℤ, pos, leb_ℤ, ◌≤ℤ◌}
use fxcore.Prelude.Float.{Float64}
use fxcore.Prelude.Text.{Text, codes, index, contains, byte_len}
use fxcore.Model.Decision.{RiskControl}
use fxcore.Model.Strategy.{CoinSource, IndicatorConfig, StrategyConfig}
use fxcore.Kernel.Lint.{
  warning, LintIssue, issue, when, coin_types, timeframes, is_empty, lint_coin, any_data,
  lint_kline, lint_risk, contract_phrases, mentions_any, section_texts, all_empty, join_sections,
  lint_section, lint_variant, lint_text, lint,
}
use fxcore.Kernel.Lint.Coins.{IsPair, coin_matches_iff}
use fxcore.Kernel.Lint.Reflect.{
  not_iff, false_iff, and_iff, or_iff, neither_iff, is_empty_iff, OneOf, one_of_iff, select-none,
}

when_iff {ℓ} : {P : Type ℓ} (b : Bool) (i : LintIssue) → (b ≡ false) ↔ P → (when b i ≡ []) ↔ P
when_iff true i e = (λ h. cc, λ p. absurd (false≢true (sym (e.1 p))))
when_iff false i e = (λ h. e.0 refl, λ p. refl)

both_iff {ℓ κ} :
    {P : Type ℓ} {Q : Type κ} (xs ys : List LintIssue)
    → (xs ≡ []) ↔ P
    → (ys ≡ []) ↔ Q
    → (xs ++ ys ≡ []) ↔ (P × Q)
both_iff [] ys p q = (λ h. (p.0 refl, q.0 h), λ r. q.1 r.1)
both_iff (x ∷ xs) ys p q = (λ h. cc, λ r. cc (p.1 r.0))

same_iff {ℓ} : {P : Type ℓ} → P ↔ P
same_iff = (λ p. p, λ p. p)

-- A source type in use, a coin at least where the coins are listed, each listed coin a pair, and
-- none of them excluded.
abbrev pub CoinsClean : CoinSource → Type 0
CoinsClean cs =
    OneOf cs.source_type coin_types
    × ((cs.source_type ≡ "static" → cs.static_coins ≢ [])
        × (All (λ c. IsPair (codes c)) cs.static_coins
            × All (λ c. ¬ OneOf c cs.excluded_coins) cs.static_coins))

lint_coin_iff : (cs : CoinSource) → (lint_coin cs ≡ []) ↔ CoinsClean cs
unfolding lint_coin
lint_coin_iff cs = both_iff _ _ (when_iff _ _ (not_iff _ (one_of_iff cs.source_type coin_types))) (
    both_iff _ _
      (when_iff _ _ (and_iff _ _ (eq_iff cs.source_type "static") (is_empty_iff cs.static_coins)))
      (both_iff _ _
        (when_iff _ _ (select-none _ (λ c. not_iff _ (coin_matches_iff c)) cs.static_coins))
        (when_iff _ _
          (select-none _ (λ c. false_iff _ (one_of_iff c cs.excluded_coins)) cs.static_coins))))

abbrev pub On : List Bool → Type 0
On [] = ⊥
On (b ∷ bs) = (b ≡ true) ⊎ On bs

-- Something that tells the model of the market is on.
abbrev pub HasData : IndicatorConfig → Type 0
HasData ind = On (
    ind.enable_raw_klines ∷ ind.enable_ema ∷ ind.enable_macd ∷ ind.enable_rsi ∷ ind.enable_atr
    ∷ ind.enable_boll ∷ ind.enable_volume ∷ ind.enable_oi ∷ ind.enable_funding_rate ∷ [])

any_data_iff : (ind : IndicatorConfig) → (any_data ind ≡ true) ↔ HasData ind
any_data_iff ind = (λ h. ground arith, λ h. ground arith)

abbrev pub Filled : Bool → List ℤ → Type 0
Filled on periods = on ≡ true → periods ≢ []

abbrev pub KlinesClean : IndicatorConfig → Type 0
KlinesClean ind =
    OneOf ind.klines.primary_timeframe timeframes
    × ((ind.klines.enable_multi_timeframe ≡ true → ind.klines.selected_timeframes ≢ [])
        × (Filled ind.enable_ema ind.ema_periods
            × (Filled ind.enable_rsi ind.rsi_periods
                × (Filled ind.enable_atr ind.atr_periods
                    × (Filled ind.enable_boll ind.boll_periods × HasData ind)))))

filled_iff {ℓ} :
    {A : Type ℓ} (on : Bool) (xs : List A) → (on && is_empty xs ≡ false) ↔ (on ≡ true → xs ≢ [])
filled_iff on xs = and_iff on _ same_iff (is_empty_iff xs)

lint_kline_iff : (ind : IndicatorConfig) → (lint_kline ind ≡ []) ↔ KlinesClean ind
unfolding lint_kline
lint_kline_iff ind =
    both_iff _ _ (when_iff _ _ (not_iff _ (one_of_iff ind.klines.primary_timeframe timeframes))) (
      both_iff _ _ (when_iff _ _ (filled_iff _ ind.klines.selected_timeframes)) (
        both_iff _ _ (when_iff _ _ (filled_iff _ ind.ema_periods)) (
          both_iff _ _ (when_iff _ _ (filled_iff _ ind.rsi_periods)) (
            both_iff _ _ (when_iff _ _ (filled_iff _ ind.atr_periods)) (
              both_iff _ _ (when_iff _ _ (filled_iff _ ind.boll_periods))
                (when_iff _ _ (not_iff _ (any_data_iff ind))))))))

positive_iff : (n : ℤ) → (leb_ℤ n (pos 0) ≡ false) ↔ (pos 1 ≤ℤ n)
positive_iff n = (λ h. ground arith, λ h. ground arith)

module _ {F : Type 0} ⦃f : Float64 F⦄ where
  abbrev pub RiskClean : RiskControl F → Type 0
  RiskClean rc =
      (pos 1 ≤ℤ rc.max_positions)
      × (((pos 1 ≤ℤ rc.btc_eth_max_leverage) × (pos 1 ≤ℤ rc.altcoin_max_leverage))
          × ((f.lt (f.dec 0 0) rc.min_risk_reward_ratio ≡ true
                → f.lt rc.min_risk_reward_ratio (f.dec 1 0) ≢ true)
              × (((f.lt rc.min_confidence (f.dec 0 0) ≢ true)
                    × (f.lt (f.dec 1 0) rc.min_confidence ≢ true))
                  × (f.le rc.max_margin_usage (f.dec 0 0) ≢ true))))

  lint_risk_iff : (rc : RiskControl F) → (lint_risk rc ≡ []) ↔ RiskClean rc
  unfolding lint_risk
  lint_risk_iff rc = both_iff _ _ (when_iff _ _ (positive_iff rc.max_positions)) (
      both_iff _ _
        (when_iff _ _ (
          neither_iff _ _ (positive_iff rc.btc_eth_max_leverage)
            (positive_iff rc.altcoin_max_leverage)))
        (both_iff _ _ (when_iff _ _ (and_iff _ _ same_iff same_iff)) (
          both_iff _ _ (when_iff _ _ (or_iff _ _ same_iff same_iff))
            (when_iff _ _ (false_iff _ same_iff)))))

all_empty_iff : (ss : List String) → (all_empty ss ≡ true) ↔ All (λ s. s ≡ "") ss
all_empty_iff [] = (λ h. tt, λ h. refl)
all_empty_iff (s ∷ ss) =
    let ih = all_empty_iff ss in
    (
      λ h. ((eq_iff s "").0 (and_left _ _ h), ih.0 (and_right (str_eq s "") _ h)),
      λ (e, h). rw ((eq_iff s "").1 e) (ih.1 h),
    )

-- At most 2000 bytes, and none of the phrases in it.
abbrev pub SectionClean : Text → Type 0
SectionClean s = (byte_len s ≤ 2_000) × All (λ p. contains s (codes p) ≢ true) contract_phrases

mentions_any_iff :
    (s : Text) (ps : List String)
    → (mentions_any s ps ≡ false) ↔ All (λ p. contains s (codes p) ≢ true) ps
mentions_any_iff s [] = (λ h. tt, λ h. refl)
mentions_any_iff s (p ∷ ps) =
    neither_iff _ _ (false_iff (contains s (codes p)) same_iff) (mentions_any_iff s ps)

section_iff : (name : String) (s : Text) → (lint_section name s ≡ []) ↔ SectionClean s
unfolding lint_section
section_iff name [] = (
  λ h. (
    unfold byte_len in omega arith,
    (mentions_any_iff [] contract_phrases).0 (unfold index in refl),
  ),
  λ h. refl,
)
section_iff name (c ∷ s) =
    both_iff _ _ (when_iff _ _ ((λ h. ground arith, λ h. ground arith)))
      (when_iff _ _ (mentions_any_iff (c ∷ s) contract_phrases))

abbrev pub VariantClean : String → String → Type 0
VariantClean variant tf =
    (variant ≡ "scalping" → ¬ OneOf tf ("1d" ∷ "4h" ∷ "1w" ∷ []))
    × (variant ≡ "conservative" → ¬ OneOf tf ("1m" ∷ "5m" ∷ []))

apart : ◌≢◌ {A = String} "scalping" "conservative"
apart e = cc

variant_iff : (variant tf : String) → (lint_variant variant tf ≡ []) ↔ VariantClean variant tf
unfolding lint_variant
variant_iff variant tf = elim (Bool-cases (str_eq variant "scalping")) [
  | inl s ↦
      let long =
        when_iff _ (issue "text_variant_tf" warning "prompt_variant")
          (false_iff _ (one_of_iff tf ("1d" ∷ "4h" ∷ "1w" ∷ []))) in
      let is = (eq_iff variant "scalping").0 s in
      rw s (λ h. (λ _. long.0 h, λ e. absurd (apart (sym is ∙ e))), λ v. long.1 (v.0 is))
  | inr s ↦
      let other = (false_iff _ (eq_iff variant "scalping")).0 s in
      rw s (elim (Bool-cases (str_eq variant "conservative")) [
        | inl c ↦
            let short =
              when_iff _ (issue "text_variant_tf" warning "prompt_variant")
                (false_iff _ (one_of_iff tf ("1m" ∷ "5m" ∷ []))) in
            let is = (eq_iff variant "conservative").0 c in
            rw c (λ h. (λ e. absurd (other e), λ _. short.0 h), λ v. short.1 (v.1 is))
        | inr c ↦
            let neither = (false_iff _ (eq_iff variant "conservative")).0 c in
            rw c (λ h. (λ e. absurd (other e), λ e. absurd (neither e)), λ v. refl)
      ])
]

flip_iff {ℓ κ} :
    {P : Type ℓ} {Q : Type κ} (flip : Bool) (xs ys : List LintIssue)
    → (xs ≡ []) ↔ P
    → (ys ≡ []) ↔ Q
    → ((if flip then ys ++ xs else xs ++ ys) ≡ []) ↔ (P × Q)
flip_iff true xs ys p q =
    let swapped = both_iff ys xs q p in
    (λ h. let (y, x) = swapped.0 h in (x, y), λ (x, y). swapped.1 (y, x))
flip_iff false xs ys p q = both_iff xs ys p q

module _ {F : Type 0} where
  -- Some text is given, each text keeps within its bounds, and the style fits the timeframe.
  abbrev pub TextClean : StrategyConfig F → Type 0
  TextClean cfg =
      (¬ All (λ s. s ≡ "") (cfg.custom_prompt ∷ section_texts cfg.prompt_sections))
      × ((SectionClean (codes cfg.custom_prompt) × SectionClean (join_sections cfg.prompt_sections))
          × VariantClean cfg.prompt_variant cfg.indicators.klines.primary_timeframe)

  lint_text_iff : (flip : Bool) (cfg : StrategyConfig F) → (lint_text flip cfg ≡ []) ↔ TextClean cfg
  unfolding lint_text
  lint_text_iff flip cfg =
      let given = all_empty_iff (cfg.custom_prompt ∷ section_texts cfg.prompt_sections) in
      let custom = section_iff "custom_prompt" (codes cfg.custom_prompt) in
      let sections = section_iff "prompt_sections" (join_sections cfg.prompt_sections) in
      both_iff _ _ (when_iff _ _ (false_iff _ given)) (
        both_iff _ _ (flip_iff flip _ _ custom sections)
          (variant_iff cfg.prompt_variant cfg.indicators.klines.primary_timeframe))

  -- Whatever order the texts are taken in, the checks find nothing exactly when: the source type
  -- is in use, a static source lists a coin, each listed coin is a pair and not excluded; the
  -- primary timeframe is one of the twelve, each enabled list has an entry, and something about
  -- the market is shown; the positions and both leverages are at least one, the least reward ratio
  -- is not between 0 and 1, the least confidence within 0 and 1, and the margin's bound above 0;
  -- and some instruction is given, with at most 2000 bytes (however many characters these are) and
  -- no phrase against the analysis, in a style that fits the primary timeframe.
  pub lint_iff :
      ⦃f : Float64 F⦄
      → (flip : Bool) (cfg : StrategyConfig F)
      → (lint flip cfg ≡ []) ↔ (
          CoinsClean cfg.coin_source
          × (KlinesClean cfg.indicators × (RiskClean cfg.risk_control × TextClean cfg)))
  unfolding lint
  lint_iff flip cfg = both_iff _ _ (lint_coin_iff cfg.coin_source) (
      both_iff _ _ (lint_kline_iff cfg.indicators)
        (both_iff _ _ (lint_risk_iff cfg.risk_control) (lint_text_iff flip cfg)))
