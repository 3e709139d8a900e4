-- ===== src/Trader/Config.antt =====
-- internal/trader/engine/engine.go: what the engine takes from a trader's strategy, its candidate
-- symbols and its time frames. `json.Unmarshal` of a strategy's text is an argument.
pub mod Taken
pub mod Frames
use fxcore.Prelude.{
  Bool, false, ◌||◌, String, str_eq, Option, none, some, List, [], ◌∷◌, ◌++◌, if◌then◌else◌,
}
use fxcore.Prelude.Int.{ℤ, pos, ltb_ℤ, leb_ℤ}
use fxcore.Prelude.Float.{Float64}
use fxcore.Model.Trader.{Trader}
use fxcore.Model.Strategy.{StrategyConfig, KlineConfig, Strategy}
use fxcore.Store.{Store}
use fxcore.Store.Strategies.{get_strategy}

-- `seen[tf]`
abbrev pub mem : String → List String → Bool
mem s [] = false
mem s (x ∷ xs) = str_eq x s || mem s xs

-- The loop over the selected time frames; `seen` holds those that are in the list.
unfoldable pub extended : List String → List String → List String
extended tfs [] = tfs
extended tfs (tf ∷ rest) =
    extended (if str_eq tf "" || mem tf tfs then tfs else tfs ++ (tf ∷ [])) rest

abbrev pub primary_of : KlineConfig → String
primary_of kc = if str_eq kc.primary_timeframe "" then "15m" else kc.primary_timeframe

abbrev pub count_of : KlineConfig → ℤ
count_of kc = if leb_ℤ kc.primary_count (pos 0) then pos 200 else kc.primary_count

unfoldable pub timeframes : KlineConfig → List String
timeframes kc =
    if kc.enable_multi_timeframe
    then extended (primary_of kc ∷ []) kc.selected_timeframes
    else primary_of kc ∷ []

abbrev pub coins_or_default : List String → List String
coins_or_default [] = "BTC-USDT" ∷ []
coins_or_default (c ∷ cs) = c ∷ cs

module _ {F : Type 0} where
  abbrev pub default_config : ⦃f : Float64 F⦄ → StrategyConfig F
  default_config ⦃f⦄ = record {
    strategy_type = "ai";
    language = "zh";
    prompt_variant = "";
    coin_source = record {
      source_type = "static";
      static_coins = [];
      excluded_coins = [];
      use_ai500 = false;
      ai500_limit = none;
      use_oi_top = false;
      oi_top_limit = none;
      use_oi_low = false;
      oi_low_limit = none;
    };
    indicators = record {
      klines = record {
        primary_timeframe = "15m";
        primary_count = pos 200;
        longer_timeframe = "";
        longer_count = pos 0;
        enable_multi_timeframe = false;
        selected_timeframes = [];
      };
      enable_raw_klines = false;
      enable_ema = false;
      enable_macd = false;
      enable_rsi = false;
      enable_atr = false;
      enable_boll = false;
      enable_volume = false;
      enable_oi = false;
      enable_funding_rate = false;
      ema_periods = [];
      rsi_periods = [];
      atr_periods = [];
      boll_periods = [];
      enable_quant_data = false;
      enable_quant_oi = false;
      enable_quant_netflow = false;
      enable_oi_ranking = false;
      oi_ranking_duration = "";
      oi_ranking_limit = pos 0;
      enable_netflow_ranking = false;
      enable_price_ranking = false;
    };
    risk_control = record {
      max_positions = pos 3;
      btc_eth_max_leverage = pos 5;
      altcoin_max_leverage = pos 5;
      btc_eth_max_position_value_ratio = f.dec 5 0;
      altcoin_max_position_value_ratio = f.dec 1 0;
      max_margin_usage = f.dec 0 0;
      min_position_size = f.dec 12 0;
      min_risk_reward_ratio = f.dec 15 1;
      min_confidence = f.dec 6 1;
    };
    custom_prompt = "";
    prompt_sections = none;
    grid_config = none;
  }

  -- What is taken of a strategy's own configuration.
  abbrev pub merged : StrategyConfig F → StrategyConfig F → StrategyConfig F
  merged cfg sc = record cfg {
    risk_control =
        if ltb_ℤ (pos 0) sc.risk_control.max_positions then sc.risk_control else cfg.risk_control;
    indicators =
        if str_eq sc.indicators.klines.primary_timeframe "" then cfg.indicators else sc.indicators;
    coin_source = if str_eq sc.coin_source.source_type "" then cfg.coin_source else sc.coin_source;
    custom_prompt = sc.custom_prompt;
    prompt_sections = sc.prompt_sections;
  }

  -- The strategy's configuration, if there is one and it is not empty and can be decoded.
  abbrev pub decoded :
      (String → Option (StrategyConfig F)) → Option Strategy → Option (StrategyConfig F)
  decoded decode none = none
  decoded decode (some st) = if str_eq st.config "" then none else decode st.config

  abbrev pub merged_opt : StrategyConfig F → Option (StrategyConfig F) → StrategyConfig F
  merged_opt cfg none = cfg
  merged_opt cfg (some sc) = merged cfg sc

  unfoldable pub strategy_config :
      ⦃f : Float64 F⦄ → (String → Option (StrategyConfig F)) → Trader F → Store F → StrategyConfig F
  strategy_config decode t s =
      merged_opt default_config (decoded decode (get_strategy t.strategy_id s))

  unfoldable pub candidate_symbols :
      ⦃f : Float64 F⦄ → (String → Option (StrategyConfig F)) → Trader F → Store F → List String
  candidate_symbols decode t s =
      coins_or_default (strategy_config decode t s).coin_source.static_coins
