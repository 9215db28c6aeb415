-- ===== src/Lib.antt =====
-- The verification library of the market data service: models of the parts that decide what data
-- is let in, kept and handed on, with the theorems about them.
--
-- The parts and how they interact. A call to a market data provider passes the circuit breaker of
-- its provider and capability (src/providers/circuit_breaker.py), then takes a token of the rate
-- limiter (src/providers/rate_limiter.py). Ticks that come back are built into candles by the
-- candle builder (src/engines/candle_builder.py); datasets go through the ordered steps of the
-- validation pipeline (src/core/pipeline.py); candles are checked for price invariants, gaps
-- and repeats by the validators (src/core/validators/), and answers are kept in the in-process
-- cache (src/cache/l1_cache.py). The market session (src/engines/market_session.py) tells the rest
-- which phase of the trading day an instant is in. Semantic checks take out zeros that stand for
-- missing values (src/core/validators/semantic.py); the quality engine scores a dataset and gates
-- the signal engine (src/engines/quality_engine.py), the alerter reports bad grades
-- (src/monitors/quality_alerter.py), the skew monitor watches the providers' clocks
-- (src/monitors/clock_skew_monitor.py), and the reconciliation engine chooses between what two
-- providers say (src/engines/reconciliation_engine.py). A backtest sees the data through the
-- point-in-time filter (src/backtest/point_in_time.py), and the replay engine plays stored ticks
-- back (src/replay/replay_engine.py). Names of Deribit's options are read and written by
-- src/core/parsers/deribit_parser.py.
--
-- Which file models which part. A function has the source's name without its leading underscore;
-- its helpers split the same body at its branches.
--   Common: what all parts share: tests on numbers, results, dictionaries in insertion order
--     (Common.Dict), whole numbers with a sign, floats as an interface (Common.Float), the values of
--     a JSON dictionary with Python's conversions of them (Common.Value), letter case on code
--     points (Common.Case).
--   Circuit: `CircuitBreaker`; its dictionaries `_mem` and the one in Redis are `mem` and `redis`.
--     Circuit.Requests has the operations as requests and runs of them, Circuit.Machine the
--     abstract machine of three phases, Circuit.Overlap the steps of `get_state` between others.
--   RateLimiter: `_LocalBucket` and `TokenBucketRateLimiter`. RateLimiter.Queue has callers that
--     join, try and leave as a step relation.
--   Candle: `CandleState`; Candle.Builder: `CandleBuilder`, whose candles are objects named by their
--     place in the order of creation; Candle.Builder.Session has its coroutines as tasks and sessions
--     of them, Candle.Builder.Contract the point-in-time check.
--   Validators.Ohlcv: `validate_ohlcv_invariants`; Validators.Gaps: `detect_candle_gaps`;
--     Validators.Dedup: `DedupStore`; Validators.Semantic: `run_semantic_validation`.
--   Quality: the quality engine: Quality.Score, Quality.Freshness (`FreshnessClassifier`),
--     Quality.Gate (`DataQualityGate`, with Quality.Consistency), Quality.Classification
--     (`classify_quality` and `apply_strategy_overrides`), Quality.OptionChain (`validate_option_chain_record`).
--   Alerts: `QualityAlerter`; Alerts.Stored has runs of requests to it.
--   ClockSkew: `ClockSkewMonitor`; ClockSkew.Window has the samples that it holds.
--   Reconciliation: `reconcile_quote`; Reconciliation.OpenInterest: `reconcile_oi` and
--     `reconcile_greeks`.
--   Backtest: `PointInTimeFilter` and `backtest_context`.
--   Replay: `ReplayEngine`; Replay.Sessions: the registry of sessions.
--   Deribit.Dates: the expiry dates; Deribit.Names: `parse`, `serialise`, `verify_round_trip`.
--   Pipeline: `ValidationPipeline`, for any methods of its steps (src/core/pipeline.py);
--     Pipeline.Moves has the loop's rounds, Pipeline.Skips the audit of skipped steps.
--   MarketSession: `MarketSessionEngine` (src/engines/market_session.py), with the holiday calendar
--     as an interface; MarketSession.Scan has the search for the next change of phase.
--   SlidingWindow: `SlidingWindowRateLimiter` and `RateLimitMiddleware`, which bound the requests
--     of the service's own consumers (src/middleware/rate_limiter.py).
--   L1Cache: `L1Cache`, with its `OrderedDict` as a list, the least recently used entry first.
--   Tests: concrete runs.
--
-- How state, time and numbers are modelled. An asynchronous method whose body runs under the
-- object's lock, or has no await between reading and writing, is one function on the object's
-- state. The others are cut at their awaits, where other tasks run: `get_state` of the circuit
-- breaker in Circuit.Overlap (Circuit itself has it in one piece, for requests that come one
-- after another), `process_tick` and `flush_all` of the candle builder in Candle.Builder.Session,
-- the polling of `acquire` of the rate limiter in its rounds. What happens at the awaits of the
-- replay is an argument. The clock is an argument wherever the source reads it. Prices are
-- elements of an interface whose laws are those of IEEE comparison; times are whole milliseconds
-- (nanoseconds in the rate limiter, where amounts are billionths of a token; microseconds in the
-- market session), so that the source's divisions by 1000 are comparisons of products. The gap
-- detector reckons in floats (`FloatTimes`); Validators.Gaps.Exact says that whole numbers below
-- 2^53 are exact there, as in IEEE 754. The arithmetic of floats in the quality engine, the
-- reconciliation and the semantic checks is the interface `Numbers`, whose laws hold in IEEE 754:
-- comparison of small whole numbers, and one of order; `int` of a float can fail. Texts are
-- compared and converted as code points. Python's whole numbers are unbounded, as are those of
-- the model.
--
-- Loops run on the list that they walk or on the source's own bound (the eight days of minutes of
-- the market session, its thirty days). The one loop without a bound in the source, the polling in
-- `acquire`, runs on the list of its rounds and says when they do not end it.
--
-- Redis is not code of the repository: the answer to each call is an argument. What the circuit
-- breaker keeps in Redis comes back as it was stored; an answer can fail, and a stored text can be
-- malformed.
--
-- Not modelled: log lines other than the transitions of the circuit breaker, texts of messages,
-- the callbacks of the candle builder, the Lua script of the rate limiter and its windows for
-- Upstox, how the middleware reads a consumer's identifier off the headers, the hash of the
-- deduplication key, the gateway, the HTTP API, the database,
-- the adapters of the providers and their streams, which are network and SQL.
pub mod Common
pub mod Circuit
pub mod L1Cache
pub mod Validators
pub mod Candle
pub mod RateLimiter
pub mod SlidingWindow
pub mod Pipeline
pub mod Quality
pub mod MarketSession
pub mod Backtest
pub mod Alerts
pub mod Reconciliation
pub mod ClockSkew
pub mod Deribit
pub mod Replay
pub mod Tests
