-- ===== src/Kernel/MarketTests.antt =====
-- Runs of the checks and the indicators, and the theorems about them at concrete inputs.
use fxcore.Prelude.{◌+◌, true, false, none, some, String, List, [], ◌∷◌, ◌≡◌, ◌↔◌, refl}
use fxcore.Prelude.Int.{ℤ, pos, negsuc, ◌+ℤ◌, ◌-ℤ◌, ◌*ℤ◌, quot}
use fxcore.Prelude.Float.{Fixed, fixed_float}
use fxcore.Prelude.Text.{codes}
use fxcore.Model.Strategy.{CoinSource, IndicatorConfig, StrategyConfig}
use fxcore.Kernel.Lint
use fxcore.Kernel.Lint.{LintIssue, issue, warning}
use fxcore.Kernel.Lint.Coins.{IsPair, coin_matches_iff}
use fxcore.Kernel.Lint.Clean.{CoinsClean, KlinesClean, RiskClean, TextClean, lint_iff}
use fxcore.Kernel.Indicators
use fxcore.Kernel.Indicators.{Math}
use fxcore.Kernel.Indicators.Lengths.{Gives, series_lengths}
use fxcore.Kernel.Context
use fxcore.Kernel.Context.{Kline, Line}
use fxcore.Kernel.Context.Shown.{context_panics}

abbrev coins : List String → CoinSource
coins static = record {
  source_type = "static";
  static_coins = static;
  excluded_coins = [];
  use_ai500 = false;
  ai500_limit = none;
  use_oi_top = false;
  oi_top_limit = none;
  use_oi_low = false;
  oi_low_limit = none;
}

abbrev indicators : List ℤ → IndicatorConfig
indicators periods = record {
  klines = record {
    primary_timeframe = "15m";
    primary_count = pos 100;
    longer_timeframe = "";
    longer_count = pos 0;
    enable_multi_timeframe = false;
    selected_timeframes = [];
  };
  enable_raw_klines = true;
  enable_ema = true;
  enable_macd = false;
  enable_rsi = false;
  enable_atr = false;
  enable_boll = false;
  enable_volume = false;
  enable_oi = false;
  enable_funding_rate = false;
  ema_periods = periods;
  rsi_periods = [];
  atr_periods = [];
  boll_periods = [];
  enable_quant_data = false;
  enable_quant_oi = false;
  enable_quant_netflow = false;
  enable_oi_ranking = false;
  oi_ranking_duration = "";
  oi_ranking_limit = pos 0;
  enable_netflow_ranking = false;
  enable_price_ranking = false;
}

abbrev strategy : StrategyConfig Fixed
strategy = record {
  strategy_type = "ai";
  language = "en";
  prompt_variant = "scalping";
  coin_source = coins ("BTC-USDT" ∷ []);
  indicators = indicators (pos 2 ∷ []);
  risk_control = record {
    max_positions = pos 3;
    btc_eth_max_leverage = pos 10;
    altcoin_max_leverage = pos 5;
    btc_eth_max_position_value_ratio = pos 50_000;
    altcoin_max_position_value_ratio = pos 10_000;
    max_margin_usage = pos 9_000;
    min_position_size = pos 120_000;
    min_risk_reward_ratio = pos 30_000;
    min_confidence = pos 7_500;
  };
  custom_prompt = "";
  prompt_sections = none;
  grid_config = none;
}

lint_test : Lint.lint true strategy ≡ issue "text_all_empty" warning "prompt_sections" ∷ []
unfolding Lint.lint Lint.lint_coin Lint.lint_kline Lint.lint_risk Lint.lint_text Lint.lint_section
    Lint.lint_variant Lint.coin_matches
lint_test = refl

lint_iff_example : (Lint.lint true strategy ≡ []) ↔ (
    CoinsClean strategy.coin_source
    × (KlinesClean strategy.indicators × (RiskClean strategy.risk_control × TextClean strategy)))
lint_iff_example = lint_iff true strategy

coin_matches_iff_example : (Lint.coin_matches "BTC-USDT" ≡ true) ↔ IsPair (codes "BTC-USDT")
coin_matches_iff_example = coin_matches_iff "BTC-USDT"

-- Square roots are not needed where the bands are not asked for.
instance abbrev fixed_math : Math Fixed
fixed_math = record {
  sqrt = λ x. x;
  abs = λ x. elim x [ pos n ↦ pos n | negsuc n ↦ pos (n + 1) ];
  max = λ x y. x;
}

abbrev prices : List Fixed
prices = pos 10_000 ∷ pos 20_000 ∷ pos 30_000 ∷ []

ema_test : Indicators.ema_series prices (pos 2) ≡ some (pos 15_000 ∷ pos 24_999 ∷ [])
unfolding Indicators.ema_series Indicators.ema_loop ◌+ℤ◌ ◌-ℤ◌ ◌*ℤ◌ quot
ema_test = refl

series_lengths_example :
    Gives 2 (Indicators.ema_series prices (pos 2))
    × Gives 1 (Indicators.rsi_series prices (pos 2))
    × Gives 1 (Indicators.atr_series prices prices prices (pos 2))
series_lengths_example = series_lengths prices prices prices 2 refl refl

abbrev kline : Kline Fixed
kline = record {
  timestamp = pos 0;
  open_price = pos 10_000;
  high = pos 20_000;
  low = pos 5_000;
  close = pos 15_000;
  volume = pos 10_000;
  oi = pos 0;
  funding = pos 0;
}

context_panics_example :
    Context.build_kline_context (kline ∷ []) (indicators (pos 7 ∷ negsuc 0 ∷ [])) ≡ none
context_panics_example =
    context_panics kline [] (indicators (pos 7 ∷ negsuc 0 ∷ [])) (pos 7 ∷ []) [] 0 refl refl
