-- ===== src/Circuit/Refinement.antt =====
-- The breaker refines the machine of Circuit/Machine.antt where Redis is not configured or answers
-- every call.
use data_service.Common.{
  ℕ, ◌≡◌, refl, sym, ◌∙◌, subst, ◌⊎◌, Bool, true, false, List, [], ◌∷◌, All, arith, Result, ok, err,
}
use data_service.Circuit.{Breaker, Link, StateDict, read_state, acquire, CircuitError}
use data_service.Circuit.Requests.{Request, query, perform, run, Arrival}
use data_service.Circuit.Validity.{IsSound, IsValid, perform-IsValid}
use data_service.Circuit.Machine.{phase, next, next_all, lets_through}

abbrev up : Link
up = record { get_up = true; set_up = true; second_set_up = true }

-- The state that the next request reads.
abbrev pub current : Breaker → StateDict
current b = read_state up b

-- No Redis, or a Redis that answers all three calls.
abbrev pub IsReliable : Bool → Link → Type 0
IsReliable has_redis link =
    (has_redis ≡ false) ⊎ (link.get_up ≡ true) × (link.set_up ≡ true) × (link.second_set_up ≡ true)

-- The configuration never changes.
pub perform-config :
    (r : Request) (link : Link) (now : ℕ) (b : Breaker)
    → ((perform r link now b).failure_threshold ≡ b.failure_threshold)
      × ((perform r link now b).recovery_window_sec ≡ b.recovery_window_sec)
      × ((perform r link now b).has_redis ≡ b.has_redis)
unfolding perform
perform-config query link now b = ground arith
perform-config _ link now b = ground arith

current-IsSound : (b : Breaker) → IsValid b → IsSound b.failure_threshold (current b)
unfolding read_state
current-IsSound b v = ground arith

perform-next_sound :
    (r : Request) (link : Link) (now : ℕ) (b : Breaker)
    → IsSound b.failure_threshold (current b)
    → IsReliable b.has_redis link
    → phase (current (perform r link now b))
      ≡ next b.failure_threshold b.recovery_window_sec now r (phase (current b))
unfolding perform read_state
perform-next_sound query link now b v reliable = ground arith
perform-next_sound _ link now b v reliable = ground arith

-- One request moves the phase as the machine does.
pub perform-next :
    (r : Request) (link : Link) (now : ℕ) (b : Breaker)
    → IsValid b
    → IsReliable b.has_redis link
    → phase (current (perform r link now b))
      ≡ next b.failure_threshold b.recovery_window_sec now r (phase (current b))
perform-next r link now b v = perform-next_sound r link now b (current-IsSound b v)

-- If a breaker is valid and uses no Redis, or a Redis that answers every call of the run, then a
-- run of requests, one after another, moves the phase of its state as the abstract machine does,
-- request by request.
pub run-next_all :
    (l : List Arrival) (b : Breaker)
    → IsValid b
    → All (λ a. IsReliable b.has_redis a.link) l
    → phase (current (run l b))
      ≡ next_all b.failure_threshold b.recovery_window_sec l (phase (current b))
unfolding run
run-next_all [] b v reliable = refl
run-next_all (a ∷ rest) b v reliable =
    let b' = perform a.request a.link a.now b in
    let (threshold, window, redis) = perform-config a.request a.link a.now b in
    let step = perform-next a.request a.link a.now b v reliable.0 in
    let still = subst (λ r. All (λ a. IsReliable r a.link) rest) (sym redis) reliable.1 in
    run-next_all rest b' (perform-IsValid a.request a.link a.now b v) still
    ∙ (λ i. next_all (threshold i) (window i) rest (step i))

pub run-config :
    (l : List Arrival) (b : Breaker)
    → ((run l b).failure_threshold ≡ b.failure_threshold)
      × ((run l b).recovery_window_sec ≡ b.recovery_window_sec)
      × ((run l b).has_redis ≡ b.has_redis)
unfolding run
run-config [] b = (refl, refl, refl)
run-config (a ∷ rest) b =
    let (t, w, r) = perform-config a.request a.link a.now b in
    let (t', w', r') = run-config rest (perform a.request a.link a.now b) in
    (t' ∙ t, w' ∙ w, r' ∙ r)

abbrev pub is_ok : Result CircuitError (Unit {0}) → Bool
is_ok (ok _) = true
is_ok (err _) = false

acquire-lets_through_sound :
    (link : Link) (now : ℕ) (b : Breaker)
    → IsSound b.failure_threshold (current b)
    → IsReliable b.has_redis link
    → is_ok (acquire link now b).1
      ≡ lets_through b.failure_threshold b.recovery_window_sec now (phase (current b))
unfolding acquire read_state
acquire-lets_through_sound link now b v reliable = ground arith

-- If a breaker is valid and uses no Redis, or a Redis that answers the calls of this request, then
-- a call is let through exactly when the abstract machine lets it through.
pub acquire-lets_through :
    (link : Link) (now : ℕ) (b : Breaker)
    → IsValid b
    → IsReliable b.has_redis link
    → is_ok (acquire link now b).1
      ≡ lets_through b.failure_threshold b.recovery_window_sec now (phase (current b))
acquire-lets_through link now b v = acquire-lets_through_sound link now b (current-IsSound b v)
