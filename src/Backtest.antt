-- ===== src/Backtest.antt =====
-- internal/backtest: runs that replay a strategy, and what the store keeps of them
-- (internal/store/backtest_store.go, without a database). The configuration is kept as it is, in
-- place of its JSON text.
pub mod Setup
pub mod Control
pub mod Account
pub mod Replaying
pub mod Loop
mod Tests
mod LoopTests
use fxcore.Prelude.{ℕ, Bool, true, false, String, List}
use fxcore.Prelude.Int.{ℤ}
use fxcore.Prelude.Dict.{Dict}

-- The seven constants of internal/api/v1/dto/backtest.go.
pub data RunState : Type 0 where
  created running paused stopped completed failed liquidated : RunState

abbrev pub is_running : RunState → Bool
is_running RunState.running = true
is_running _ = false

abbrev pub is_paused : RunState → Bool
is_paused RunState.paused = true
is_paused _ = false

-- The states in which `Stop` refuses.
abbrev pub is_stopped : RunState → Bool
is_stopped RunState.completed = true
is_stopped RunState.stopped = true
is_stopped RunState.failed = true
is_stopped _ = false

-- The states that a record of the store is restored from.
abbrev pub is_final : RunState → Bool
is_final RunState.completed = true
is_final RunState.stopped = true
is_final RunState.liquidated = true
is_final RunState.failed = true
is_final _ = false

-- `dto.BacktestConfig`, the fields that the engine reads.
pub record Config (F : Type 0) : Type 0 where
  pub strategy_id : String
  pub symbols : List String
  pub cadence : ℤ
  pub initial_balance : F
  pub leverage : ℤ
  pub fee_bps : F
  pub slippage_bps : F
  pub fill_policy : String
  pub start_time : ℤ
  pub end_time : ℤ

pub record BtPosition (F : Type 0) : Type 0 where
  pub symbol : String
  pub side : String
  pub qty : F
  pub entry : F

-- `has_cancel` is false where the cancel function is nil: calling it then panics.
pub record Run (F : Type 0) : Type 0 where
  pub user_id : String
  pub state : RunState
  pub cfg : Config F
  pub has_cancel : Bool
  pub cycle : ℕ
  pub total_cycles : ℤ
  pub equity : F
  pub available : F
  pub peak_equity : F
  pub positions : Dict (BtPosition F)
  pub liquidated : Bool
  pub last_error : String

-- `model.BacktestRun`
pub record BacktestRun (F : Type 0) : Type 0 where
  pub run_id : String
  pub user_id : String
  pub config : Config F
  pub state : RunState
  pub label : String
  pub symbol_count : ℕ
  pub progress_pct : F
  pub equity_last : F
  pub max_drawdown_pct : F
  pub liquidated : Bool
  pub last_error : String
  pub created_at : ℕ
  pub updated_at : ℕ

-- `model.BacktestTrade`
pub record BacktestTrade (F : Type 0) : Type 0 where
  pub run_id : String
  pub timestamp : ℕ
  pub symbol : String
  pub action : String
  pub side : String
  pub quantity : F
  pub price : F
  pub fee : F
  pub slippage : F
  pub realized_pnl : F
  pub order_value : F
  pub leverage : ℤ
  pub cycle : ℕ
  pub position_after : F
  pub liquidation : Bool
  pub note : String

-- The engine's runs and the store's records of runs.
pub record World (F : Type 0) : Type 0 where
  pub runs : Dict (Run F)
  pub records : Dict (BacktestRun F)
  pub trades : List (BacktestTrade F)
