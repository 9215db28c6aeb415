-- ===== src/Circuit/Machine.antt =====
-- What the circuit breaker promises: a machine on three phases, with no Redis, no dictionary and no
-- log. `opened t` was opened at time `t`; `half_open true` has its probe in flight.
use data_service.Common.{
  ℕ, ◌+◌, ◌*◌, Bool, true, false, not, leb, if◌then◌else◌, Option, none, some, List, [], ◌∷◌,
}
use data_service.Circuit
use data_service.Circuit.{StateDict}
use data_service.Circuit.Requests.{Request, query, invoke, succeed, fail, force_reset, Arrival}

pub data Phase : Type 0 where
  closed : ℕ → Phase
  opened : ℕ → Phase
  half_open : Bool → Phase

abbrev opening_time : Option ℕ → ℕ
opening_time none = 0
opening_time (some t) = t

abbrev phase_of : Circuit.CircuitState → StateDict → Phase
phase_of Circuit.CircuitState.closed s = closed s.failure_count
phase_of Circuit.CircuitState.opened s = opened (opening_time s.opened_at_ms)
phase_of Circuit.CircuitState.half_open s = half_open s.probe_in_flight

-- The phase that a state dictionary stands for.
abbrev pub phase : StateDict → Phase
phase s = phase_of s.state s

module _ (threshold window now : ℕ) where
  -- Whether a call is let through.
  abbrev pub lets_through : Phase → Bool
  lets_through (closed n) = true
  lets_through (opened t) = leb (t + 1000 * window) now
  lets_through (half_open probing) = not probing

  abbrev pub next : Request → Phase → Phase
  next query (opened t) = if leb (t + 1000 * window) now then half_open false else opened t
  next invoke (opened t) = if leb (t + 1000 * window) now then half_open true else opened t
  next invoke (half_open probing) = half_open true
  next succeed (closed n) = closed 0
  next succeed (half_open probing) = closed 0
  next (fail reason) (closed n) = if leb threshold (n + 1) then opened now else closed (n + 1)
  next (fail reason) (half_open probing) = opened now
  next force_reset p = closed 0
  next _ p = p

-- The machine over a run.
abbrev pub next_all : ℕ → ℕ → List Arrival → Phase → Phase
next_all threshold window [] p = p
next_all threshold window (a ∷ rest) p =
    next_all threshold window rest (next threshold window a.now a.request p)
