-- ===== src/Trader.antt =====
-- The traders' life: the service that the API calls (internal/api/v1/service/trader_svc.go) and the
-- engine that trades (internal/trader/engine).
pub mod Runners
pub mod Service
pub mod Risk
pub mod Execute
pub mod Sync
pub mod Config
pub mod Drawdown
pub mod Decide
pub mod Cycle
mod Tests
mod TradingTests
mod CycleTests
