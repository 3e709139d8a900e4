-- ===== src/Debate.antt =====
-- internal/debate: sessions in which models argue in rounds and vote, and the votes' outcome.
pub mod Votes
pub mod Sessions
pub mod Ballot
pub mod Rounds
mod Tests
mod RoundTests
