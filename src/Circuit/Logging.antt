-- ===== src/Circuit/Logging.antt =====
-- The WARN event of an opening circuit, and what a lost write to Redis does to the probe.
use data_service.Common.{
  ℕ, ◌≡◌, Bool, true, false, Option, String, [], ◌∷◌, ◌++◌, arith, if◌then◌else◌, ok,
}
use data_service.Circuit.{
  Breaker, Link, StateDict, stored, circuit_open, read_state, record_failure, is_opened, acquire,
  half_open,
}

-- A failure that is recorded while the circuit is not OPEN logs `circuit_open`, with the count, the
-- threshold and the reason, exactly if it opens the circuit, whatever Redis answers.
pub record_failure-logs :
    (link : Link) (now : ℕ) (reason : Option String) (b : Breaker)
    → is_opened (read_state link b).state ≡ false
    → (record_failure link now reason b).logs ≡ (
        if is_opened (record_failure link now reason b).mem.state
        then b.logs
          ++ circuit_open
              (record_failure link now reason b).mem.failure_count
              b.failure_threshold
              reason
            ∷ []
        else b.logs)
unfolding record_failure
record_failure-logs link now reason b h = ground arith

-- If Redis holds HALF_OPEN with a free probe slot and answers reads while it refuses writes, a
-- claim of the probe is lost and the next call is let through too.
pub acquire_twice :
    (now now' : ℕ) (up : Bool) (b : Breaker) (s : StateDict)
    → b.has_redis ≡ true
    → b.redis ≡ stored s
    → s.state ≡ half_open
    → s.probe_in_flight ≡ false
    → let link : Link = record { get_up = true; set_up = up; second_set_up = false } in
      ((acquire link now b).1 ≡ ok tt) × ((acquire link now' (acquire link now b).0).1 ≡ ok tt)
unfolding acquire
acquire_twice now now' up b s redis held half free = (ground arith, ground arith)
