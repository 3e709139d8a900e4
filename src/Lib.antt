-- ===== src/Lib.antt =====
-- fxcore is a trading backend in Go: users connect models and exchange accounts, a trader lets an AI
-- decide and places its orders, a backtest replays a strategy on past candles, and a debate lets models
-- argue and vote. This library models the parts that carry the rules of that program, and states what
-- makes them correct.
--
-- A request passes the middleware (internal/middleware), which asks the stores of internal/pkg/cache for
-- tokens, limits and nonces. The handlers call the services (internal/api/v1/service), which keep their
-- state in internal/store. The trading engine (internal/trader/engine) and the backtest engine
-- (internal/backtest) run loops of their own on the same store, and so do debates (internal/debate).
--
-- The files, and the code they stand for:
--   Prelude and its children  what the others share: lists and Go's maps over the native numbers,
--                             integers, and `float64` as an interface
--   Cache                     internal/pkg/cache/cache.go: `kvTokenStore` (Cache.Token), `memLimiter`
--                             (Cache.Limiter) and `memNonceCache` (Cache.Nonce)
--   Middleware                internal/middleware: error.go (Middleware.ApiError), sign.go
--                             (Middleware.Sign, one definition for each guard of the handler) and
--                             ratelimit.go (Middleware.RateLimit)
--   Model                     internal/model, and the records of internal/exchange/exchange.go and
--                             internal/api/v1/dto/strategy.go that the engine reads
--   Store                     internal/store/store.go, order_fill_store.go, decision_store.go and
--                             strategy_store.go: Store.Users, Store.Traders, Store.Positions, Store.Orders,
--                             Store.Decisions, Store.Strategies, each method a function on the record `Store`
--   Trader                    internal/api/v1/service/trader_svc.go (Trader.Service and its children),
--                             internal/trader/engine/engine.go (Trader.Runners for the loops,
--                             Trader.Config for what is taken of a strategy, Trader.Cycle for a whole
--                             cycle, Trader.Drawdown for the positions that the guard closes in it,
--                             Trader.Decide for its decision, Trader.Execute for its actions),
--                             risk.go (Trader.Risk) and ordersync.go (Trader.Sync)
--   Backtest                  internal/backtest/engine.go (Backtest.Control) and replay.go
--                             (Backtest.Loop, Backtest.Replaying for the snapshots and the end, and
--                             Backtest.Account for the actions), with what a run begins
--                             with (Backtest.Setup) and the records of
--                             internal/store/backtest_store.go
--   Debate                    internal/debate: engine.go (Debate.Sessions), and of debate_loop.go the loop
--                             (Debate.Rounds), the reading of a vote (Debate.Ballot) and the outcome
--                             (Debate.Votes)
--   Kernel                    internal/kernel: parse.go (Kernel.Parse), lint.go (Kernel.Lint), and of
--                             indicators.go the indicators (Kernel.Indicators) and the lines about the
--                             market (Kernel.Context)
--   Mcp                       mcp: context_guard.go (Mcp.Context), the retries and the streams of
--                             client.go and sse.go (Mcp.Retry, Mcp.Stream), and the endpoints of client.go,
--                             hooks.go and provider/claude.go (Mcp.Url)
-- A child of such a file holds the theorems about it, and a module Tests the runs on concrete inputs.
--
-- How the code is read:
--   - a method that holds a lock from its first read to its last write is one function on the state; a
--     history of concurrent calls is a list of such calls. A method made of several locked parts is
--     modelled as if no other call came between the parts;
--   - the clock, random ids, and what an exchange or the user table answers are arguments, and the
--     theorems hold for all of them. HMAC is any function;
--   - the store is that of a process without a database, the branches after `s.db == nil`; the queries
--     of a database are not modelled;
--   - an amount is a value of any type with the operations of `Float64`. A theorem that needs a law of
--     floats names it as a hypothesis, and `Fixed`, decimals with four places, meets it in the examples;
--   - `int` and `int64` are integers without bound, but for the difference of two timestamps in the
--     signature check and the cycles and windows of a backtest, which wrap at 64 bits, and for the parser,
--     which knows the range of `int64`;
--   - a call of the limiter stands at the place where it takes its lock, with the instant that it read
--     before; the signature check has two instants, that of the window and that of the nonce;
--   - a start of a backtest that panics leaves the engine's lock taken, and no call after it returns; the
--     theorems on histories of calls still hold of what came before;
--   - a map is a list of keys and values, in any order of iteration;
--   - errors are values. The text of an error that the code builds from another library's error is left
--     out where that library is;
--   - a text that is searched or cut is the list of its code points (Prelude.Text), and a run-time panic
--     of the indicators is a value of its own;
--   - the decoders of JSON, and what the network and the events of a stream bring, are arguments;
--   - a loop runs over a list that it is given. The loop that takes reasoning out of an answer has the
--     length of the text as its fuel, which is enough since each round shortens it; the digits of a status
--     have fuel for 20.
--
-- Not modelled: the handlers, the router and the other services (glue around the calls modelled here),
-- internal/llm, the bodies of requests and answers of mcp and the system prompt, the exchange adapters,
-- the Redis variants of internal/pkg/cache, encryption, mail, logging, data providers, cmd and the web
-- client. Of a trader's cycle the texts of the prompts and of the log are left out, of a backtest's replay
-- the timer, the prompt and the reading of the results, and of a debate its creation, the subscriptions and
-- the texts of the prompts.
pub mod Prelude
pub mod Cache
pub mod Middleware
pub mod Model
pub mod Store
pub mod Trader
pub mod Backtest
pub mod Debate
pub mod Kernel
pub mod Mcp
