-- ===== src/Circuit/Overlap.antt =====
-- `get_state` of src/providers/circuit_breaker.py, which takes no lock: it awaits its `GET`, and then
-- its `SET`, while other requests run. The requests that hold the lock, and those that touch no
-- state, are single steps, since they keep each other out; a `get_state` is two, its read and what it
-- does with what it read. A read that falls between two awaits of a locked request is counted before
-- that request: it finds what stood there, or a state that is not OPEN any more.
use data_service.Common.{
  ℕ, zero, suc, ◌≡◌, refl, sym, ap, ◌∙◌, subst, Bool, true, false, Option, none, some, List, [],
  ◌∷◌, ◌++◌, ◌+◌, ◌*◌, leb, All, All-append, arith, err, not,
}
use data_service.Circuit.{
  Breaker, Link, StateDict, acquire, advance, read_state, recovered, is_opened, circuit_open_error,
}
use data_service.Circuit
use data_service.Circuit.Requests.{Request, perform, invoke}
use data_service.Circuit.Validity.{IsValid, perform-IsValid}
use data_service.Circuit.Machine.{half_open, phase, next}
use data_service.Circuit.Refinement.{current, IsReliable, is_ok, perform-next, perform-config}
use data_service.Circuit.Probe.{is_outcome, is_closed, next-probe, acquire-claims, acquire-probing}

-- The breaker, and what each `get_state` that has not gone on has read.
pub record System : Type 0 where
  pub breaker : Breaker
  pub reads : List StateDict

pub data Step : Type 0 where
  whole : Request → Step
  begin_query : Step
  end_query : ℕ → Step

pub record Turn : Type 0 where
  pub step : Step
  pub link : Link
  pub now : ℕ

-- What a waiting read leaves of the breaker once it goes on; a number that no read has does nothing.
unfoldable resume : Link → ℕ → ℕ → List StateDict → Breaker → Breaker
unfolding advance
resume link now i [] b = b
resume link now zero (s ∷ rest) b = (advance link now s b).0
resume link now (suc i) (s ∷ rest) b = resume link now i rest b

unfoldable drop_at {ℓ} : {A : Type ℓ} → ℕ → List A → List A
drop_at i [] = []
drop_at zero (x ∷ xs) = xs
drop_at (suc i) (x ∷ xs) = x ∷ drop_at i xs

unfoldable pub take_step : Step → Link → ℕ → System → System
unfolding perform resume drop_at read_state
take_step (whole r) link now m = record m { breaker = perform r link now m.breaker }
take_step begin_query link now m = record m { reads = m.reads ++ read_state link m.breaker ∷ [] }
take_step (end_query i) link now m = record {
  breaker = resume link now i m.reads m.breaker;
  reads = drop_at i m.reads;
}

unfoldable pub run_turns : List Turn → System → System
unfolding take_step
run_turns [] m = m
run_turns (t ∷ rest) m = run_turns rest (take_step t.step t.link t.now m)

-- A breaker whose probe is out, with no waiting read that would write.
record IsProbing (has_redis : Bool) (m : System) : Type 0 where
  valid : IsValid m.breaker
  redis : m.breaker.has_redis ≡ has_redis
  probing : phase (current m.breaker) ≡ half_open true
  harmless : All (λ s. is_opened s.state ≡ false) m.reads

-- What a turn of the calm time may be: anything but a request that reports an outcome, with a Redis
-- that answers.
abbrev pub is_quiet : Step → Bool
is_quiet (whole r) = not (is_outcome r)
is_quiet _ = true

resume_harmless :
    (link : Link) (now i : ℕ) (reads : List StateDict) (b : Breaker)
    → All (λ s. is_opened s.state ≡ false) reads
    → resume link now i reads b ≡ b
unfolding resume advance
resume_harmless link now i [] b h = refl
resume_harmless link now zero (s ∷ rest) b h = ground (arith, h.0)
resume_harmless link now (suc i) (s ∷ rest) b h = resume_harmless link now i rest b h.1

drop_at-All :
    (i : ℕ) (reads : List StateDict)
    → All (λ s. is_opened s.state ≡ false) reads
    → All (λ s. is_opened s.state ≡ false) (drop_at i reads)
unfolding drop_at
drop_at-All i [] h = tt
drop_at-All zero (s ∷ rest) h = h.1
drop_at-All (suc i) (s ∷ rest) h = (h.0, drop_at-All i rest h.1)

read-reliable :
    (link : Link) (b : Breaker) → IsReliable b.has_redis link → read_state link b ≡ current b
unfolding read_state
read-reliable link b h = ground arith

half_open-harmless : (s : StateDict) → phase s ≡ half_open true → is_opened s.state ≡ false
half_open-harmless s h = ground arith

not-true : (b : Bool) → not b ≡ true → b ≡ false
not-true true h = ground arith
not-true false h = refl

take_step-IsProbing :
    {has_redis : Bool} (step : Step) (link : Link) (now : ℕ) (m : System)
    → is_quiet step ≡ true
    → IsReliable has_redis link
    → IsProbing has_redis m
    → IsProbing has_redis (take_step step link now m)
unfolding take_step
take_step-IsProbing (whole r) link now m quiet up h =
    let up' = subst (λ x. IsReliable x link) (sym h.redis) up in
    record {
      valid = perform-IsValid r link now m.breaker h.valid;
      redis = (perform-config r link now m.breaker).2 ∙ h.redis;
      probing =
          perform-next r link now m.breaker h.valid up'
          ∙ ap (next m.breaker.failure_threshold m.breaker.recovery_window_sec now r) h.probing
          ∙ next-probe m.breaker.failure_threshold m.breaker.recovery_window_sec now r
              (not-true (is_outcome r) quiet);
      harmless = h.harmless;
    }
take_step-IsProbing begin_query link now m quiet up h = record {
  valid = h.valid;
  redis = h.redis;
  probing = h.probing;
  harmless = All-append _ m.reads _ h.harmless (
    half_open-harmless (read_state link m.breaker) (
        ap phase (read-reliable link m.breaker (subst (λ x. IsReliable x link) (sym h.redis) up))
        ∙ h.probing),
    tt,
  );
}
take_step-IsProbing (end_query i) link now m quiet up h =
    let same = resume_harmless link now i m.reads m.breaker h.harmless in
    record {
      valid = subst IsValid (sym same) h.valid;
      redis = ap (λ b. b.has_redis) same ∙ h.redis;
      probing = ap (λ b. phase (current b)) same ∙ h.probing;
      harmless = drop_at-All i m.reads h.harmless;
    }

run_turns-IsProbing :
    {has_redis : Bool} (l : List Turn) (m : System)
    → All (λ t. (is_quiet t.step ≡ true) × IsReliable has_redis t.link) l
    → IsProbing has_redis m
    → IsProbing has_redis (run_turns l m)
unfolding run_turns
run_turns-IsProbing [] m quiet h = h
run_turns-IsProbing (t ∷ rest) m quiet h =
    run_turns-IsProbing rest (take_step t.step t.link t.now m) quiet.1
      (take_step-IsProbing t.step t.link t.now m quiet.0.0 quiet.0.1 h)

-- If a valid breaker that is not closed, with no Redis or one that answers throughout, lets a call
-- through as its probe while no `get_state` waits that has read OPEN, then every later call is
-- rejected as half open, in whatever order other requests and the steps of any number of `get_state`
-- come in between, as long as none of them reports an outcome or resets the breaker.
pub probe_excludes :
    (b : Breaker) (reads : List StateDict) (l : List Turn) (link link' : Link) (now now' : ℕ)
    → IsValid b
    → IsReliable b.has_redis link
    → IsReliable b.has_redis link'
    → is_closed (phase (current b)) ≡ false
    → is_ok (acquire link now b).1 ≡ true
    → All (λ s. is_opened s.state ≡ false) reads
    → All (λ t. (is_quiet t.step ≡ true) × IsReliable b.has_redis t.link) l
    → let m : System = record { breaker = perform invoke link now b; reads = reads } in
      (acquire link' now' (run_turns l m).breaker).1
      ≡ err (circuit_open_error Circuit.CircuitState.half_open)
probe_excludes b reads l link link' now now' v up up' h granted harmless quiet =
    let m : System = record { breaker = perform invoke link now b; reads = reads } in
    let claimed : IsProbing b.has_redis m = record {
      valid = perform-IsValid invoke link now b v;
      redis = (perform-config invoke link now b).2;
      probing = acquire-claims link now b v up h granted;
      harmless = harmless;
    } in
    let done = run_turns-IsProbing l m quiet claimed in
    acquire-probing link' now' (run_turns l m).breaker
      (subst (λ x. IsReliable x link') (sym done.redis) up') done.probing

-- A waiting read of OPEN makes the probe's slot free, whatever the breaker has come to.
stale_read-frees :
    (b : Breaker) (s : StateDict) (rest : List StateDict) (link link' : Link) (now now' : ℕ)
    → IsReliable b.has_redis link
    → IsReliable b.has_redis link'
    → is_opened s.state ≡ true
    → recovered b now s.opened_at_ms ≡ true
    → let m : System = record { breaker = b; reads = s ∷ rest } in
      is_ok (acquire link' now' (take_step (end_query 0) link now m).breaker).1 ≡ true
unfolding take_step acquire read_state advance resume
stale_read-frees b s rest link link' now now' up up' opened passed = ground arith

recovered-granted :
    (link : Link) (now : ℕ) (b : Breaker)
    → IsReliable b.has_redis link
    → is_opened (current b).state ≡ true
    → recovered b now (current b).opened_at_ms ≡ true
    → is_ok (acquire link now b).1 ≡ true
unfolding acquire read_state advance
recovered-granted link now b up opened passed = ground arith

recovered-config :
    (r : Request) (link : Link) (now later : ℕ) (b : Breaker) (o : Option ℕ)
    → recovered (perform r link now b) later o ≡ recovered b later o
recovered-config r link now later b none = refl
recovered-config r link now later b (some t) =
    ap (λ w. leb (t + 1000 * w) later) (perform-config r link now b).1

abbrev pub stale_turns : Link → ℕ → ℕ → List Turn
stale_turns link now now' =
    record { step = begin_query; link = link; now = now }
    ∷ record { step = whole invoke; link = link; now = now }
    ∷ record { step = end_query 0; link = link; now = now' }
    ∷ []

-- Two probes pass although Redis answers throughout: if a breaker is OPEN when a `get_state` reads it,
-- a call comes next, and only then the `get_state` goes on, both after the recovery window, then that
-- call and the next one after it are both let through.
pub stale_query-frees :
    (b : Breaker) (link : Link) (now now' now'' : ℕ)
    → IsReliable b.has_redis link
    → is_opened (current b).state ≡ true
    → recovered b now (current b).opened_at_ms ≡ true
    → recovered b now' (current b).opened_at_ms ≡ true
    → let m : System = record { breaker = b; reads = [] } in
      (is_ok (acquire link now b).1 ≡ true)
      × (is_ok (acquire link now'' (run_turns (stale_turns link now now') m).breaker).1 ≡ true)
unfolding run_turns take_step
stale_query-frees b link now now' now'' up opened passed passed' =
    let b' = perform invoke link now b in
    let up' = subst (λ x. IsReliable x link) (sym (perform-config invoke link now b).2) up in
    let s = read_state link b in
    let same : current b ≡ s = sym (read-reliable link b up) in
    (
      recovered-granted link now b up opened passed,
      stale_read-frees b' s [] link link now' now'' up' up'
          (subst (λ x. is_opened x.state ≡ true) same opened)
          (subst (λ x. recovered b' now' x.opened_at_ms ≡ true) same
            (recovered-config invoke link now now' b (current b).opened_at_ms ∙ passed')),
    )
