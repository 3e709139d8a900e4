-- ===== src/Model/Decision.antt =====
-- internal/model/decision_record.go: what the AI asks for, and the record of a decision;
-- internal/model/equity_snapshot.go; the risk limits of a strategy
-- (internal/api/v1/dto/strategy.go); and an exchange's order parameters, results and positions
use fxcore.Prelude.{ℕ, Bool, ◌||◌, String, str_eq, Option, List}
use fxcore.Prelude.Int.{ℤ}

pub record DecisionAction (F : Type 0) : Type 0 where
  pub action : String
  pub symbol : String
  pub quantity : F
  pub leverage : F
  pub price : F
  pub stop_loss : F
  pub take_profit : F
  pub confidence : F
  pub reasoning : String
  pub order_id : String
  pub success : Option Bool
  pub error : String

pub record DecisionRecord (F : Type 0) : Type 0 where
  pub id : String
  pub trader_id : String
  pub cycle_number : ℤ
  pub timestamp : ℕ
  pub system_prompt : String
  pub input_prompt : String
  pub cot_trace : String
  pub decision_json : String
  pub raw_response : String
  pub candidate_coins : Option String
  pub decisions : List (DecisionAction F)
  pub execution_log : Option String
  pub success : Bool
  pub error_message : String
  pub ai_request_duration_ms : ℤ

pub record EquitySnapshot (F : Type 0) : Type 0 where
  pub id : String
  pub trader_id : String
  pub timestamp : ℕ
  pub total_equity : F
  pub balance : F
  pub unrealized_pnl : F
  pub position_count : ℕ
  pub margin_used_pct : F

-- The six constants.
abbrev pub action_open_long : String
action_open_long = "open_long"

abbrev pub action_open_short : String
action_open_short = "open_short"

abbrev pub action_close_long : String
action_close_long = "close_long"

abbrev pub action_close_short : String
action_close_short = "close_short"

abbrev pub action_hold : String
action_hold = "hold"

abbrev pub action_wait : String
action_wait = "wait"

abbrev pub is_opening : String → Bool
is_opening action = str_eq action action_open_long || str_eq action action_open_short

abbrev pub is_closing : String → Bool
is_closing action = str_eq action action_close_long || str_eq action action_close_short

pub record RiskControl (F : Type 0) : Type 0 where
  pub max_positions : ℤ
  pub btc_eth_max_leverage : ℤ
  pub altcoin_max_leverage : ℤ
  pub btc_eth_max_position_value_ratio : F
  pub altcoin_max_position_value_ratio : F
  pub max_margin_usage : F
  pub min_position_size : F
  pub min_risk_reward_ratio : F
  pub min_confidence : F

pub record OrderParams (F : Type 0) : Type 0 where
  pub symbol : String
  pub side : String
  pub position_side : String
  pub quantity : F
  pub price : F
  pub stop_loss : F
  pub take_profit : F
  pub leverage : ℤ
  pub reduce_only : Bool
  pub client_order_id : String

pub record OrderResult (F : Type 0) : Type 0 where
  pub exchange_order_id : String
  pub client_order_id : String
  pub status : String
  pub filled_quantity : F
  pub avg_fill_price : F
  pub fee : F
  pub fee_asset : String

-- `exchange.Position`
pub record ExchangePosition (F : Type 0) : Type 0 where
  pub symbol : String
  pub side : String
  pub quantity : F
  pub entry_price : F
  pub mark_price : F
  pub unrealized_pnl : F
  pub leverage : ℤ
