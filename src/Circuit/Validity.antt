-- ===== src/Circuit/Validity.antt =====
-- What holds of every copy of the circuit's state, in memory and in Redis, whatever Redis answers.
use data_service.Common.{ℕ, ◌≤◌, ◌<◌, ◌≡◌, ◌≢◌, true, none, List, [], ◌∷◌, arith}
use data_service.Circuit.{
  StateDict, closed, opened, half_open, Payload, stored, Breaker, Link, read_state,
}
use data_service.Circuit.Requests.{Request, query, perform, run, Arrival}

pub record IsSound (threshold : ℕ) (s : StateDict) : Type 0 where
  pub below_threshold : s.state ≡ closed → s.failure_count < threshold
  pub dated : s.state ≡ opened → s.opened_at_ms ≢ none
  pub probing : s.probe_in_flight ≡ true → s.state ≡ half_open

abbrev pub IsSoundPayload : ℕ → Payload → Type 0
IsSoundPayload threshold (stored s) = IsSound threshold s
IsSoundPayload threshold _ = Unit

pub record IsValid (b : Breaker) : Type 0 where
  pub positive : 1 ≤ b.failure_threshold
  pub local : IsSound b.failure_threshold b.mem
  pub remote : IsSoundPayload b.failure_threshold b.redis

read_state-IsSound :
    (link : Link) (b : Breaker) → IsValid b → IsSound b.failure_threshold (read_state link b)
unfolding read_state
read_state-IsSound link b v = ground arith

-- Every request leaves every copy of the state sound.
pub perform-IsValid :
    (r : Request) (link : Link) (now : ℕ) (b : Breaker) → IsValid b → IsValid (perform r link now b)
unfolding perform
perform-IsValid query link now b v = ground (arith, read_state-IsSound link b v)
perform-IsValid _ link now b v = ground (arith, read_state-IsSound link b v)

-- Whatever run of requests reaches a valid breaker, with Redis answering or not at each of them,
-- the breaker stays valid: its threshold is positive, and its state in memory and the one in Redis
-- each keep the invariant of the state dictionary.
pub run-IsValid : (l : List Arrival) (b : Breaker) → IsValid b → IsValid (run l b)
unfolding run
run-IsValid [] b v = v
run-IsValid (a ∷ rest) b v =
    run-IsValid rest (perform a.request a.link a.now b) (perform-IsValid a.request a.link a.now b v)
