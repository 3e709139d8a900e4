-- ===== src/Model.antt =====
-- internal/model: the entities of the trading side. Times are numbers; an amount is a value of the
-- type `F` that stands for Go's `float64`.
pub mod Trader
pub mod Order
pub mod User
pub mod Decision
pub mod Chat
pub mod Strategy
