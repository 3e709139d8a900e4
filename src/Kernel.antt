-- ===== src/Kernel.antt =====
-- internal/kernel: reading the AI's decisions, checking a strategy's prompt, and the indicators.
pub mod Parse
pub mod Lint
pub mod Indicators
pub mod Context
pub mod Tests
pub mod MarketTests
