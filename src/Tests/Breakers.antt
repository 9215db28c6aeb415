-- ===== src/Tests/Breakers.antt =====
-- The circuit breaker at concrete states.
use data_service.Common.{
  ℕ, ◌≤◌, ◌≡◌, refl, true, false, none, some, List, [], ◌∷◌, ok, err, inr, arith, ap,
}
use data_service.Circuit
use data_service.Circuit.{
  Breaker, Link, StateDict, Payload, stored, absent, default_state_dict, circuit_open_error,
  acquire, record_failure, read_state, is_opened, recovered, circuit_open,
}
use data_service.Circuit.Requests.{Arrival, perform, run, query, invoke, fail}
use data_service.Circuit.Validity.{IsValid, run-IsValid}
use data_service.Circuit.Machine.{phase, next_all, lets_through, closed, opened}
use data_service.Circuit.Refinement.{current, IsReliable, is_ok, run-next_all, acquire-lets_through}
use data_service.Circuit.Counting.{run-opens}
use data_service.Circuit.Probe.{is_closed}
use data_service.Circuit.Overlap.{
  Turn, System, stale_turns, whole, begin_query, end_query, run_turns, probe_excludes,
  stale_query-frees,
}
use data_service.Circuit.Logging.{acquire_twice}

abbrev link : Link
link = record { get_up = true; set_up = true; second_set_up = true }

abbrev calm : StateDict
calm = record {
  state = Circuit.CircuitState.closed;
  opened_at_ms = none;
  failure_count = 0;
  last_failure_reason = none;
  probe_in_flight = false;
}

abbrev tripped : StateDict
tripped = record calm {
  state = Circuit.CircuitState.opened;
  opened_at_ms = some 1000;
  failure_count = 2;
  last_failure_reason = some "timeout";
}

-- Two failures open it; the window is a minute.
abbrev breaker : Breaker
breaker = record {
  provider = "angel_one";
  capability = "HISTORICAL_OHLCV";
  failure_threshold = 2;
  recovery_window_sec = 60;
  has_redis = true;
  mem = calm;
  redis = stored calm;
  logs = [];
}

abbrev open_breaker : Breaker
open_breaker = record breaker { mem = tripped; redis = stored tripped }

breaker-IsValid : IsValid breaker
breaker-IsValid = record { positive = omega arith; local = ground arith; remote = ground arith }

open_breaker-IsValid : IsValid open_breaker
open_breaker-IsValid = record {
  positive = omega arith;
  local = ground arith;
  remote = ground arith;
}

abbrev failing : Arrival
failing = record { request = fail (some "timeout"); link = link; now = 1000 }

abbrev asking : Arrival
asking = record { request = query; link = link; now = 2000 }

abbrev calling : Arrival
calling = record { request = invoke; link = link; now = 3000 }

-- Redis answers no call of this one.
abbrev cut_off : Arrival
cut_off = record failing { link = record { get_up = false; set_up = false; second_set_up = false } }

run-IsValid_example : IsValid (run (failing ∷ cut_off ∷ calling ∷ []) breaker)
run-IsValid_example = run-IsValid (failing ∷ cut_off ∷ calling ∷ []) breaker breaker-IsValid

up : IsReliable true link
up = inr (refl, refl, refl)

breaker-closed : phase (current breaker) ≡ closed 0
unfolding read_state
breaker-closed = refl

open_breaker-opened : phase (current open_breaker) ≡ opened 1000
unfolding read_state
open_breaker-opened = refl

run-next_all_example :
    phase (current (run (failing ∷ failing ∷ calling ∷ []) breaker))
    ≡ next_all 2 60 (failing ∷ failing ∷ calling ∷ []) (phase (current breaker))
run-next_all_example =
    run-next_all (failing ∷ failing ∷ calling ∷ []) breaker breaker-IsValid (up, (up, (up, tt)))

acquire-lets_through_example :
    is_ok (acquire link 61000 open_breaker).1
    ≡ lets_through 2 60 61000 (phase (current open_breaker))
acquire-lets_through_example = acquire-lets_through link 61000 open_breaker open_breaker-IsValid up

run-opens_example :
    phase (current (perform (fail none) link 5000 (run (failing ∷ asking ∷ []) breaker)))
    ≡ opened 5000
run-opens_example =
    run-opens (failing ∷ asking ∷ []) breaker breaker-IsValid (up, (up, tt)) (refl, (refl, tt))
      breaker-closed none link 5000 up refl

open_breaker-granted : is_ok (acquire link 61000 open_breaker).1 ≡ true
unfolding acquire
open_breaker-granted = refl

-- A `get_state` begins and goes on after the probe is out, a second call comes in between.
abbrev overlapped : List Turn
overlapped =
    record { step = begin_query; link = link; now = 61500 }
    ∷ record { step = whole invoke; link = link; now = 61600 }
    ∷ record { step = end_query 0; link = link; now = 61700 }
    ∷ []

abbrev overlapping : System
overlapping =
    run_turns overlapped (record { breaker = perform invoke link 61000 open_breaker; reads = [] })

probe_excludes_example :
    (acquire link 62000 overlapping.breaker).1
    ≡ err (circuit_open_error Circuit.CircuitState.half_open)
probe_excludes_example =
    probe_excludes open_breaker [] overlapped link link 61000 62000 open_breaker-IsValid up up
      (ap is_closed open_breaker-opened) open_breaker-granted tt
      ((refl, up), ((refl, up), ((refl, up), tt)))

-- The read of the open state goes on after the call that claimed the probe.
abbrev stale : System
stale = run_turns (stale_turns link 61000 61100) (record { breaker = open_breaker; reads = [] })

open_breaker-reads_opened : is_opened (current open_breaker).state ≡ true
unfolding read_state
open_breaker-reads_opened = refl

open_breaker-recovered :
    (now : ℕ) → 61000 ≤ now → recovered open_breaker now (current open_breaker).opened_at_ms ≡ true
unfolding read_state
open_breaker-recovered now h = ground arith

stale_query-frees_example :
    (is_ok (acquire link 61000 open_breaker).1 ≡ true)
    × (is_ok (acquire link 61200 stale.breaker).1 ≡ true)
stale_query-frees_example =
    stale_query-frees open_breaker link 61000 61100 61200 up open_breaker-reads_opened
      (open_breaker-recovered 61000 (omega arith)) (open_breaker-recovered 61100 (omega arith))

breaker-reads_closed : is_opened (read_state link breaker).state ≡ false
unfolding read_state
breaker-reads_closed = refl

-- HALF_OPEN with a free probe slot.
abbrev probing : StateDict
probing = record tripped { state = Circuit.CircuitState.half_open }

acquire_twice_example :
    let lossy : Link = record { get_up = true; set_up = true; second_set_up = false } in
    let b : Breaker = record breaker { mem = probing; redis = stored probing } in
    ((acquire lossy 61000 b).1 ≡ ok tt)
    × ((acquire lossy 62000 (acquire lossy 61000 b).0).1 ≡ ok tt)
acquire_twice_example =
    acquire_twice 61000 62000 true (record breaker { mem = probing; redis = stored probing })
      probing refl refl refl refl

-- Two failures open the circuit, which logs it; the probe is let through a minute later.
opens :
    ((run (failing ∷ failing ∷ []) breaker).logs ≡ circuit_open 2 2 (some "timeout") ∷ [])
    × ((acquire link 60999 (run (failing ∷ failing ∷ []) breaker)).1
        ≡ err (circuit_open_error Circuit.CircuitState.opened))
    × ((acquire link 61000 (run (failing ∷ failing ∷ []) breaker)).1 ≡ ok tt)
unfolding run perform acquire
opens = (refl, refl, refl)
