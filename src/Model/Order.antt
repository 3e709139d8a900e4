-- ===== src/Model/Order.antt =====
-- internal/model/order.go and fill.go, and the fill that an exchange reports
-- (internal/exchange/exchange.go).
use fxcore.Prelude.{ℕ, Bool, String}
use fxcore.Prelude.Int.{ℤ}

pub record Order (F : Type 0) : Type 0 where
  pub id : String
  pub trader_id : String
  pub exchange_id : String
  pub exchange_order_id : String
  pub client_order_id : String
  pub symbol : String
  pub side : String
  pub position_side : String
  pub type : String
  pub time_in_force : String
  pub quantity : F
  pub price : F
  pub stop_price : F
  pub status : String
  pub filled_quantity : F
  pub avg_fill_price : F
  pub commission : F
  pub commission_asset : String
  pub leverage : ℤ
  pub reduce_only : Bool
  pub close_position : Bool
  pub created_at : ℕ
  pub updated_at : ℕ

pub record Fill (F : Type 0) : Type 0 where
  pub id : String
  pub trader_id : String
  pub order_id : String
  pub exchange_order_id : String
  pub exchange_trade_id : String
  pub symbol : String
  pub side : String
  pub price : F
  pub quantity : F
  pub quote_quantity : F
  pub commission : F
  pub commission_asset : String
  pub realized_pnl : F
  pub is_maker : Bool
  pub created_at : ℕ

-- `exchange.Fill`
pub record ExchangeFill (F : Type 0) : Type 0 where
  pub exchange_order_id : String
  pub exchange_trade_id : String
  pub symbol : String
  pub side : String
  pub price : F
  pub quantity : F
  pub commission : F
  pub commission_asset : String
  pub realized_pnl : F
  pub is_maker : Bool
  pub timestamp_ms : ℕ
