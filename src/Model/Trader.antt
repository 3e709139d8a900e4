-- ===== src/Model/Trader.antt =====
-- internal/model/trader.go: traders and positions.
use fxcore.Prelude.{ℕ, Bool, true, false, String, Option, List}
use fxcore.Prelude.Int.{ℤ}

-- The five constants; nothing in the program writes another status.
pub data Status : Type 0 where
  idle running paused stopped error : Status

abbrev pub same_status : Status → Status → Bool
same_status Status.idle Status.idle = true
same_status Status.running Status.running = true
same_status Status.paused Status.paused = true
same_status Status.stopped Status.stopped = true
same_status Status.error Status.error = true
same_status _ _ = false

pub record ModelConfig : Type 0 where
  pub provider : String
  pub model_id : String
  pub parameters : String

pub record ActiveHours : Type 0 where
  pub start : String
  pub end : String

pub record Schedule : Type 0 where
  pub interval : ℤ
  pub active_hours : List ActiveHours

pub record RiskConfig (F : Type 0) : Type 0 where
  pub max_position_size : F
  pub stop_loss : F
  pub take_profit : F
  pub max_daily_loss : F

pub record Metrics (F : Type 0) : Type 0 where
  pub total_pnl : F
  pub win_rate : F
  pub trade_count : ℕ
  pub daily_pnl : F

pub record Trader (F : Type 0) : Type 0 where
  pub id : String
  pub user_id : String
  pub name : String
  pub exchange : String
  pub model_config : ModelConfig
  pub strategy_id : String
  pub risk_config : RiskConfig F
  pub schedule : Option Schedule
  pub status : Status
  pub metrics : Metrics F
  pub created_at : ℕ
  pub updated_at : ℕ

pub record Position (F : Type 0) : Type 0 where
  pub id : String
  pub trader_id : String
  pub exchange_id : String
  pub symbol : String
  pub side : String
  pub size : F
  pub entry_price : F
  pub pnl : F
  pub opened_at : ℕ
  pub closed_at : Option ℕ
  pub entry_quantity : F
  pub quantity : F
  pub mark_price : F
  pub unrealized_pnl : F
  pub leverage : ℤ
  pub status : String
  pub entry_time : ℕ
  pub exit_time : ℕ
  pub exit_price : F
  pub realized_pnl : F
  pub fee : F
  pub close_reason : String
  pub source : String
