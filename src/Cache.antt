-- ===== src/Cache.antt =====
-- internal/pkg/cache/cache.go: the in-memory fallbacks of the refresh-token store, of the sliding
-- window rate limiter and of the nonce cache. A call has one instant, a number of nanoseconds, in the
-- limiter of milliseconds: what the token store and the nonce cache read of the clock, all of it under
-- the lock, and what the limiter reads of it once, before it takes the lock.
pub mod Token
pub mod Limiter
pub mod Nonce
mod Tests
use Prim.Native.Nat.{ℕ}

-- The number of entries past which expired ones are swept out.
abbrev pub max_mem_keys : ℕ
max_mem_keys = 10_000
