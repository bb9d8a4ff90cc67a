-- ===== src/Lib.antt =====
-- Verification of the LLM inference autoscaler (app/): cost-aware routing, spend limits, and the
-- guards and the controller around a pool of models.
--
-- A request goes through `InferenceService.handle` (app/service.py): the rate limiter, routing by
-- complexity and price, the response cache, the reservation of its projected cost, the capacity
-- gate, the call of a model with circuit breakers and failover, and the settlement of its actual
-- cost or the refund. The autoscaler reads the gate and sizes it. app/main.py serves these over HTTP,
-- app/factory.py chooses the parts from the settings, and a fleet of replicas shares one Redis
-- server.
--
-- Files and code:
--   Base              lists, dictionaries, tests on numbers, Python's `round` and `ceil` of quotients;
--                     Text: pieces of texts
--   Errors            the exception classes with their bases, and `Result`, which throws them
--   Config            app/config.py: `Complexity`, `ModelSpec`, `DEFAULT_CATALOG`; Settings:
--                     `Settings`, `from_env`, `_parse_model_map`; Settings/Reading: what it reads
--   Tokens            app/tokens.py: `count_tokens`, `estimate_output_tokens`
--   Complexity        app/complexity.py: `estimate_complexity`; Keywords: the keyword search; Tiers:
--                     which tier a request gets
--   Router            app/router.py: `route`; Sort: the order by price; Sound, Primary, Pinned: what
--                     its answers satisfy
--   Ledger            app/cost/memory.py, app/cost/base.py: `Ledger`; Entries: lists of entries;
--                     Holds, Close, Charge: one call or two; Budget: interleavings of calls
--   Breaker           app/breaker.py: `CircuitBreaker`; Life: sequences of calls; Registry:
--                     `BreakerRegistry`
--   RateLimit         app/ratelimit.py: `TokenBucketLimiter`; Sustained, Retry: what it grants and tells
--   Cache             app/cache.py: `InMemoryCache`; Key: `make_cache_key`; Lru, Reads: its laws;
--                     Flight: `SingleFlight`
--   Gate              app/gate.py: `CapacityGate`; Runs: interleavings of callers
--   Metrics           app/metrics.py: the counters; Snapshot: `snapshot`, `prometheus`
--   Autoscaler        app/autoscaler.py: `Autoscaler`; Bounds, Cooldown: runs of it
--   Service           app/service.py. State: the service and what it takes from outside; Failover:
--                     `_generate_with_failover`; Handle: `handle` and its steps; Stream:
--                     `handle_stream` and its finalizer; Scaling: the autoscaler's tick
--                     and its loop; Books: what the metrics and the records add up to;
--                     Drain: the detached tasks and `drain_settlements`, with its runs and returns
--   Providers         app/providers/base.py: `Completion`, `Usage`, `StreamChunk`; Mock:
--                     app/providers/mock.py; Vllm: app/providers/vllm.py, its requests and parsing,
--                     with Loop: the loop over attempts, Generate: `generate`, Stream:
--                     `generate_stream`, with Once, Frames and Counted: what a caller gets of it,
--                     Retries: how often they post
--   Json              the values of `json.loads`, and `dict.get`
--   Http              app/main.py: `_as_http` and the endpoints that run a request; Operations: the
--                     others; Status, Backoff: the status codes and `Retry-After`; Requests, Bodies:
--                     what a client is answered
--   Redis             the commands of a Redis server, an interface with its laws; Memory: a server in
--                     memory that has them
--   RedisLedger       app/cost/redis_ledger.py: its scripts and methods; Calls: `_eval`; Sums, Scripts,
--                     Elsewhere, Rules: lemmas on them; Fleet: replicas that share a server; Outages,
--                     Settling: a server that does not answer
--   RedisLimiter      app/ratelimit.py: `RedisRateLimiter` and its script
--   RedisCache        app/cache.py: `RedisCache`
--   Factory           app/factory.py, and the constructor of `InferenceService`; Wiring: what a
--                     setting selects
--   Tests             runs of the models at concrete inputs
--
-- State and steps. An object is a record, a method a function from the record and a clock reading
-- to the new record and the result; an exception is a case of the result. No method of the ledger,
-- the cache, the limiter and the breaker waits while it has changed state, so a call is one step,
-- and concurrent requests are interleavings of such steps. `handle` is cut where it waits: what
-- other requests do meanwhile are the functions `during_wait` and `during_call` of `World`, with
-- the provider's answers and the clock readings; for `handle_stream`, `during_stream`, with the
-- event at which the client leaves.
--
-- Numbers. The source computes with floats; the model is exact, with units in which the settings
-- are whole: costs in pico-dollars and prices in nano-dollars per 1,000 tokens, so that a cost is a
-- sum of products; times in ticks; the load per replica and the characters per token in
-- thousandths; a score in 120,000ths. A division is by cross-multiplication or by Python's rounding
-- of the exact quotient. The tolerance of 1e-9 dollars in `reserve` is in the model.
-- Where the exact value of a sum of floats is a threshold, the source can decide otherwise, as in the
-- tiers of app/complexity.py. What a Lua script writes as a text keeps 14 digits, which `lua_number`
-- computes, and what is written with "%.10f" keeps units of 1e-10 dollars.
--
-- Fuel and loops. The loop of `_generate_with_failover` runs on fuel, one more than there are models
-- in the catalog: each pass excludes a model that was on offer. The loop over the attempts of
-- app/providers/vllm.py is recursion on the attempts left, the loop of the mock over its pieces on
-- their number, which is the quotient of the lengths rounded up.
--
-- Scripts. A Lua script is a function of the sorted set, since the server runs it as one step; a
-- member of the set is the pair of its id and its amount. A server that does not answer is an
-- exception in the reply.
--
-- Parameters: `tiktoken`, Python's lower-casing, stripping and number parsing and its class of word
-- characters, the digest of a cache key, the clock and the ids of ledger entries; `json`; the
-- replies to `httpx`; the Redis commands, as the record `Redis` with their laws; the environment. For
-- the service a provider is a function to its outcomes. Which packages are installed is a parameter
-- of the wiring.
--
-- Not modelled: the cancellation of a buffered request by its server;
-- FastAPI, the validation of requests by pydantic and the lifespan of the application; `aclose`,
-- connection addresses and timeouts; the expiry of keys on the Redis server; the texts of messages.
-- A value under "text" or "finish_reason" of a model server that is neither
-- falsy nor a text, which no completions API sends, is taken for an exception.
pub mod Base
pub mod Errors
pub mod Breaker
pub mod RateLimit
pub mod Autoscaler
pub mod Tokens
pub mod Config
pub mod Providers
pub mod Complexity
pub mod Router
pub mod Ledger
pub mod Metrics
pub mod Gate
pub mod Cache
pub mod Service
pub mod Json
pub mod Http
pub mod Redis
pub mod RedisLedger
pub mod RedisLimiter
pub mod RedisCache
pub mod Factory
pub mod Tests
