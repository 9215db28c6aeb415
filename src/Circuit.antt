-- ===== src/Circuit.antt =====
-- src/providers/circuit_breaker.py: the circuit breaker of one provider and capability, its
-- in-memory copy of the state and the copy in Redis. Redis is not code of the repository: each
-- operation takes a `Link` that says which of its calls Redis answers. Times are milliseconds of
-- the monotonic clock, taken as arguments.
pub mod Requests
pub mod Validity
pub mod Machine
pub mod Refinement
pub mod Counting
pub mod Probe
pub mod Logging
pub mod Overlap
use data_service.Common.{
  ℕ, suc, ◌+◌, ◌*◌, String, Bool, true, false, ◌&&◌, ◌||◌, Option, none, some, List, [], ◌∷◌, ◌++◌,
  leb, if◌then◌else◌, Result, ok, err,
}

-- `CircuitState`; `opened` is OPEN.
pub data CircuitState : Type 0 where
  closed opened half_open : CircuitState

-- The state dictionary, as it stands in memory and in the JSON payload.
pub record StateDict : Type 0 where
  pub state : CircuitState
  pub opened_at_ms : Option ℕ
  pub failure_count : ℕ
  pub last_failure_reason : Option String
  pub probe_in_flight : Bool

-- What `GET` finds under the breaker's key. `malformed` is a payload that `json.loads` refuses.
pub data Payload : Type 0 where
  absent malformed : Payload
  stored : StateDict → Payload

-- The structured log events that report a transition.
pub data LogEvent : Type 0 where
  circuit_open : ℕ → ℕ → Option String → LogEvent
  circuit_closed : LogEvent

pub record Breaker : Type 0 where
  pub provider : String
  pub capability : String
  pub failure_threshold : ℕ
  pub recovery_window_sec : ℕ
  pub has_redis : Bool
  pub mem : StateDict
  pub redis : Payload
  pub logs : List LogEvent

-- Which Redis calls of one operation are answered: its `GET`, its first and its second `SET`.
pub record Link : Type 0 where
  pub get_up : Bool
  pub set_up : Bool
  pub second_set_up : Bool

pub data CircuitError : Type 0 where
  value_error : CircuitError
  circuit_open_error : CircuitState → CircuitError

unfoldable pub default_state_dict : StateDict
default_state_dict = record {
  state = closed;
  opened_at_ms = none;
  failure_count = 0;
  last_failure_reason = none;
  probe_in_flight = false;
}

-- `__init__`; `found` is what the key holds in Redis before.
unfoldable pub init : String → String → Bool → Payload → ℕ → ℕ → Result CircuitError Breaker
unfolding default_state_dict
init provider capability has_redis found threshold window =
    if leb 1 threshold && leb threshold 100
    then if leb 1 window && leb window 3600
      then ok (record {
        provider = provider;
        capability = capability;
        failure_threshold = threshold;
        recovery_window_sec = window;
        has_redis = has_redis;
        mem = default_state_dict;
        redis = found;
        logs = [];
      })
      else err value_error
    else err value_error

parse : StateDict → Payload → StateDict
unfolding default_state_dict
parse mem absent = default_state_dict
parse mem malformed = mem
parse mem (stored s) = s

unfoldable pub read_state : Link → Breaker → StateDict
unfolding parse
read_state link b =
    if b.has_redis then if link.get_up then parse b.mem b.redis else b.mem else b.mem

-- `up` says whether Redis answers this `SET`.
unfoldable pub write_state : Bool → StateDict → Breaker → Breaker
write_state up s b =
    if b.has_redis && up then record b { mem = s; redis = stored s } else record b { mem = s }

-- `(now - opened_at_ms) / 1000 >= recovery_window_sec`
abbrev pub recovered : Breaker → ℕ → Option ℕ → Bool
recovered b now none = false
recovered b now (some opened_at) = leb (opened_at + 1000 * b.recovery_window_sec) now

abbrev pub is_opened : CircuitState → Bool
is_opened opened = true
is_opened _ = false

abbrev pub is_half_open : CircuitState → Bool
is_half_open half_open = true
is_half_open _ = false

-- The block that `get_state` and `call` share: OPEN becomes HALF_OPEN after the recovery window.
unfoldable pub advance : Link → ℕ → StateDict → Breaker → Breaker × StateDict
unfolding write_state
advance link now s b =
    if is_opened s.state && recovered b now s.opened_at_ms
    then (let s' = record s { state = half_open; probe_in_flight = false } in
        (write_state link.set_up s' b, s'))
    else (b, s)

-- With no other request between its `GET` and its `SET`; the source takes no lock here, and
-- Circuit/Overlap.antt has the two apart.
unfoldable pub get_state : Link → ℕ → Breaker → Breaker × CircuitState
unfolding read_state advance
get_state link now b = let (b', s) = advance link now (read_state link b) b in (b', s.state)

-- The part of `call` that runs under the lock, once OPEN has been advanced.
admit : Bool → StateDict → Breaker → Breaker × Result CircuitError (Unit {0})
unfolding write_state
admit up s b =
    if is_opened s.state
    then (b, err (circuit_open_error opened))
    else if is_half_open s.state
    then if s.probe_in_flight
      then (b, err (circuit_open_error half_open))
      else (write_state up (record s { probe_in_flight = true }) b, ok tt)
    else (b, ok tt)

unfoldable pub acquire : Link → ℕ → Breaker → Breaker × Result CircuitError (Unit {0})
unfolding read_state advance admit
acquire link now b =
    let (b', s) = advance link now (read_state link b) b in admit link.second_set_up s b'

-- What a call comes back with: the breaker's rejection, or whatever the provider's function does.
pub data Outcome {ℓ} (A : Type ℓ) : Type ℓ where
  rejected : CircuitError → Outcome A
  executed : A → Outcome A

finish {ℓ} : {A : Type ℓ} → A → Breaker × Result CircuitError (Unit {0}) → Breaker × Outcome A
finish a (b, ok _) = (b, executed a)
finish a (b, err e) = (b, rejected e)

-- `call`: the provider's function runs after the lock is released; `a` is its result or exception.
unfoldable pub call {ℓ} : {A : Type ℓ} → Link → ℕ → A → Breaker → Breaker × Outcome A
unfolding acquire finish
call link now a b = finish a (acquire link now b)

unfoldable pub record_success : Link → Breaker → Breaker
unfolding read_state write_state
record_success link b =
    let s = read_state link b in
    if is_opened s.state
    then b
    else let b' =
        write_state link.set_up
          (record s {
            state = closed;
            failure_count = 0;
            opened_at_ms = none;
            last_failure_reason = none;
            probe_in_flight = false;
          })
          b in
      if is_half_open s.state then record b' { logs = b'.logs ++ circuit_closed ∷ [] } else b'

-- `if reason:`; Python takes the empty text as false.
given : Option String → Bool
given none = false
given (some String.[]) = false
given (some (String.◌∷◌ c r)) = true

unfoldable pub record_failure : Link → ℕ → Option String → Breaker → Breaker
unfolding read_state write_state given
record_failure link now reason b =
    let s = read_state link b in
    if is_opened s.state
    then if given reason
      then write_state link.set_up (record s { last_failure_reason = reason }) b
      else b
    else let n = s.failure_count + 1 in
      let s' = record s { failure_count = n; last_failure_reason = reason } in
      if is_half_open s.state || leb b.failure_threshold n
      then (let b' =
            write_state link.set_up
              (record s' { state = opened; opened_at_ms = some now; probe_in_flight = false }) b in
          record b' { logs = b'.logs ++ circuit_open n b.failure_threshold reason ∷ [] })
      else write_state link.set_up s' b

-- `record_rate_limit`, `record_market_closed`, `record_unsupported_capability`: a log line only.
unfoldable pub record_rate_limit : Option ℕ → Breaker → Breaker
record_rate_limit retry_after b = b

unfoldable pub record_market_closed : Breaker → Breaker
record_market_closed b = b

unfoldable pub record_unsupported_capability : Breaker → Breaker
record_unsupported_capability b = b

unfoldable pub reset : Link → Breaker → Breaker
unfolding write_state default_state_dict
reset link b = write_state link.set_up default_state_dict b
