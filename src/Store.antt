-- ===== src/Store.antt =====
-- internal/store: the store of a process that runs without a database (`s.db == nil`). Each method
-- holds the lock from its first read to its last write, so it is one function on the record. What the
-- code draws at random or reads from the clock, a new id or the time, is an argument.
pub mod Users
pub mod Traders
pub mod Positions
pub mod Orders
pub mod Decisions
pub mod Strategies
pub mod Tests
mod RecordTests
use fxcore.Prelude.{ℕ, String, List}
use fxcore.Prelude.Dict.{Dict}
use fxcore.Model.User.{User, AiModel}
use fxcore.Model.Trader.{Trader, Position}
use fxcore.Model.Order.{Order, Fill}
use fxcore.Model.Decision.{DecisionRecord, EquitySnapshot}
use fxcore.Model.Strategy.{Strategy}

pub record Store (F : Type 0) : Type 0 where
  pub users : Dict User
  pub email_index : Dict String
  pub models : Dict AiModel
  pub traders : Dict (Trader F)
  pub positions : List (Position F)
  pub pos_seq : ℕ
  pub orders : List (Order F)
  pub fills : List (Fill F)
  pub strategies : Dict Strategy
  pub decisions : List (DecisionRecord F)
  pub equities : List (EquitySnapshot F)
