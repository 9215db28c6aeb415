-- ===== src/Circuit/Requests.antt =====
-- The public methods of `CircuitBreaker` as one type of requests, and runs of a breaker.
use data_service.Common.{ℕ, String, Option, List, [], ◌∷◌}
use data_service.Circuit
use data_service.Circuit.{Breaker, Link}

pub data Request : Type 0 where
  query invoke succeed market_closed unsupported force_reset : Request
  fail : Option String → Request
  rate_limited : Option ℕ → Request

unfoldable pub perform : Request → Link → ℕ → Breaker → Breaker
unfolding Circuit.get_state Circuit.acquire Circuit.record_success Circuit.record_failure
    Circuit.record_rate_limit Circuit.record_market_closed Circuit.record_unsupported_capability
    Circuit.reset
perform query link now b = (Circuit.get_state link now b).0
perform invoke link now b = (Circuit.acquire link now b).0
perform succeed link now b = Circuit.record_success link b
perform market_closed link now b = Circuit.record_market_closed b
perform unsupported link now b = Circuit.record_unsupported_capability b
perform force_reset link now b = Circuit.reset link b
perform (fail reason) link now b = Circuit.record_failure link now reason b
perform (rate_limited retry_after) link now b = Circuit.record_rate_limit retry_after b

-- One request with the time at which it is made and what Redis answers to it.
pub record Arrival : Type 0 where
  pub request : Request
  pub link : Link
  pub now : ℕ

unfoldable pub run : List Arrival → Breaker → Breaker
run [] b = b
run (a ∷ rest) b = run rest (perform a.request a.link a.now b)
