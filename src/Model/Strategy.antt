-- ===== src/Model/Strategy.antt =====
-- internal/model/strategy.go: a strategy; and internal/api/v1/dto/strategy.go: the tree of its
-- configuration.
use fxcore.Prelude.{ℕ, Bool, String, Option, List}
use fxcore.Prelude.Int.{ℤ}
use fxcore.Model.Decision.{RiskControl}

pub record CoinSource : Type 0 where
  pub source_type : String
  pub static_coins : List String
  pub excluded_coins : List String
  pub use_ai500 : Bool
  pub ai500_limit : Option ℤ
  pub use_oi_top : Bool
  pub oi_top_limit : Option ℤ
  pub use_oi_low : Bool
  pub oi_low_limit : Option ℤ

pub record KlineConfig : Type 0 where
  pub primary_timeframe : String
  pub primary_count : ℤ
  pub longer_timeframe : String
  pub longer_count : ℤ
  pub enable_multi_timeframe : Bool
  pub selected_timeframes : List String

pub record IndicatorConfig : Type 0 where
  pub klines : KlineConfig
  pub enable_raw_klines : Bool
  pub enable_ema : Bool
  pub enable_macd : Bool
  pub enable_rsi : Bool
  pub enable_atr : Bool
  pub enable_boll : Bool
  pub enable_volume : Bool
  pub enable_oi : Bool
  pub enable_funding_rate : Bool
  pub ema_periods : List ℤ
  pub rsi_periods : List ℤ
  pub atr_periods : List ℤ
  pub boll_periods : List ℤ
  pub enable_quant_data : Bool
  pub enable_quant_oi : Bool
  pub enable_quant_netflow : Bool
  pub enable_oi_ranking : Bool
  pub oi_ranking_duration : String
  pub oi_ranking_limit : ℤ
  pub enable_netflow_ranking : Bool
  pub enable_price_ranking : Bool

pub record PromptSections : Type 0 where
  pub role_definition : String
  pub trading_frequency : String
  pub entry_standards : String
  pub decision_process : String

pub record GridConfig (F : Type 0) : Type 0 where
  pub symbol : String
  pub grid_count : ℤ
  pub lower_price : F
  pub upper_price : F
  pub leverage : ℤ
  pub investment_usd : F
  pub max_orders : ℤ

pub record StrategyConfig (F : Type 0) : Type 0 where
  pub strategy_type : String
  pub language : String
  pub prompt_variant : String
  pub coin_source : CoinSource
  pub indicators : IndicatorConfig
  pub risk_control : RiskControl F
  pub custom_prompt : String
  pub prompt_sections : Option PromptSections
  pub grid_config : Option (GridConfig F)

-- The configuration is the text of a `StrategyConfig`.
pub record Strategy : Type 0 where
  pub id : String
  pub user_id : String
  pub name : String
  pub description : String
  pub is_active : Bool
  pub is_default : Bool
  pub is_public : Bool
  pub config : String
  pub created_at : ℕ
  pub updated_at : ℕ
