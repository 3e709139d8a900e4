-- ===== src/Middleware.antt =====
-- internal/middleware: the error matrix, the access-token check, the rate limit and the signature
-- check that stand in front of the handlers.
pub mod ApiError
pub mod Numbers
pub mod Sign
pub mod RateLimit
mod Tests
