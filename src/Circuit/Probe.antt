-- ===== src/Circuit/Probe.antt =====
-- The lemmas on the probe of HALF_OPEN, and the recovery window of OPEN.
use data_service.Common.{
  ℕ, ◌+◌, ◌*◌, ◌<◌, ◌≡◌, refl, ◌∙◌, sym, subst, ap, Bool, true, false, List, [], ◌∷◌, All, arith,
  err, leb,
}
use data_service.Circuit.{Breaker, Link, acquire, circuit_open_error}
use data_service.Circuit
use data_service.Circuit.Requests.{
  Request, Arrival, perform, run, query, invoke, succeed, fail, force_reset,
}
use data_service.Circuit.Validity.{IsValid, run-IsValid}
use data_service.Circuit.Machine.{
  Phase, closed, opened, half_open, phase, next, next_all, lets_through,
}
use data_service.Circuit.Refinement.{
  current, IsReliable, is_ok, run-next_all, perform-next, run-config, acquire-lets_through,
}

-- The requests that report what became of a call, and the administrator's.
abbrev pub is_outcome : Request → Bool
is_outcome succeed = true
is_outcome (fail reason) = true
is_outcome force_reset = true
is_outcome _ = false

pub next-probe :
    (threshold window now : ℕ) (r : Request)
    → is_outcome r ≡ false
    → next threshold window now r (half_open true) ≡ half_open true
next-probe threshold window now query h = refl
next-probe threshold window now _ h = ground arith

pub acquire-probing :
    (link : Link) (now : ℕ) (b : Breaker)
    → IsReliable b.has_redis link
    → phase (current b) ≡ half_open true
    → (acquire link now b).1 ≡ err (circuit_open_error Circuit.CircuitState.half_open)
unfolding acquire Circuit.read_state
acquire-probing link now b up h = ground arith

abbrev pub is_closed : Phase → Bool
is_closed (closed n) = true
is_closed _ = false

-- A call that is let through while the breaker is not closed is the probe.
pub acquire-claims :
    (link : Link) (now : ℕ) (b : Breaker)
    → IsValid b
    → IsReliable b.has_redis link
    → is_closed (phase (current b)) ≡ false
    → is_ok (acquire link now b).1 ≡ true
    → phase (current (perform invoke link now b)) ≡ half_open true
acquire-claims link now b v up h granted =
    perform-next invoke link now b v up
    ∙ claim b.failure_threshold b.recovery_window_sec now (phase (current b)) h
        (sym (acquire-lets_through link now b v up) ∙ granted)
  where
    claim :
        (threshold window now : ℕ) (p : Phase)
        → is_closed p ≡ false
        → lets_through threshold window now p ≡ true
        → next threshold window now invoke p ≡ half_open true
    claim threshold window now (closed n) h granted = ground arith
    claim threshold window now (opened t) h granted = ground arith
    claim threshold window now (half_open probing) h granted = refl

abbrev pub is_reset : Request → Bool
is_reset force_reset = true
is_reset _ = false

next-opened :
    (threshold window now t : ℕ) (r : Request)
    → now < t + 1000 * window
    → is_reset r ≡ false
    → next threshold window now r (opened t) ≡ opened t
next-opened threshold window now t query early h = ground arith
next-opened threshold window now t _ early h = ground arith

next_all-opened :
    (threshold window t : ℕ) (l : List Arrival)
    → All (λ a. (a.now < t + 1000 * window) × (is_reset a.request ≡ false)) l
    → next_all threshold window l (opened t) ≡ opened t
next_all-opened threshold window t [] h = refl
next_all-opened threshold window t (a ∷ rest) h =
    ap (next_all threshold window rest) (next-opened threshold window a.now t a.request h.0.0 h.0.1)
    ∙ next_all-opened threshold window t rest h.1

module _ (b : Breaker) (l : List Arrival) (v : IsValid b)
    (reliable : All (λ a. IsReliable b.has_redis a.link) l) where
  -- If a valid breaker, with no Redis or one that answers throughout, is opened at a time and all
  -- requests of a run come inside its recovery window and none is a `reset`, then the next call is
  -- let through exactly if the window has passed.
  pub recovery_window :
      (link : Link) (now : ℕ) {t : ℕ}
      → IsReliable b.has_redis link
      → phase (current b) ≡ opened t
      → All (λ a. (a.now < t + 1000 * b.recovery_window_sec) × (is_reset a.request ≡ false)) l
      → is_ok (acquire link now (run l b)).1 ≡ leb (t + 1000 * b.recovery_window_sec) now
  recovery_window link now up h early =
      let (t, w, r) = run-config l b in
      acquire-lets_through link now (run l b) (run-IsValid l b v)
        (subst (λ x. IsReliable x link) (sym r) up)
      ∙ (λ i. lets_through (t i) (w i) now (
          (run-next_all l b v reliable
              ∙ ap (next_all b.failure_threshold b.recovery_window_sec l) h
              ∙ next_all-opened b.failure_threshold b.recovery_window_sec _ l early)
            i))
