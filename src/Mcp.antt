-- ===== src/Mcp.antt =====
-- mcp: the client of the AI models.
pub mod Context
pub mod Retry
pub mod Stream
pub mod Url
pub mod Tests
