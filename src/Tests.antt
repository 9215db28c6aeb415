-- ===== src/Tests.antt =====
-- Concrete inputs: each theorem of the results at values that meet its hypotheses.
mod Breakers
mod Caches
mod Validation
mod Candles
mod Limits
mod Consumers
mod Steps
mod Sessions
mod Numbers
mod Quality
mod Feeds
mod Names
mod Clocks
