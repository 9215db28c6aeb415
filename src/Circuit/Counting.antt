-- ===== src/Circuit/Counting.antt =====
-- How the breaker opens: failures in a row, with nothing but neutral requests between them.
use data_service.Common.{
  ℕ, suc, ◌+◌, ◌<◌, ◌≡◌, ◌∙◌, sym, subst, Bool, true, false, Option, List, [], ◌∷◌, All, arith, ap,
  if◌then◌else◌, String,
}
use data_service.Circuit.{Breaker, Link}
use data_service.Circuit.Requests.{
  Request, Arrival, perform, run, query, succeed, fail, force_reset,
}
use data_service.Circuit.Validity.{IsValid, run-IsValid}
use data_service.Circuit.Machine.{closed, opened, phase, next, next_all}
use data_service.Circuit.Refinement.{current, IsReliable, run-next_all, perform-next, run-config}

-- `record_success` and `reset` clear the count.
abbrev pub clears : Request → Bool
clears succeed = true
clears force_reset = true
clears _ = false

abbrev pub is_failure : Request → Bool
is_failure (fail reason) = true
is_failure _ = false

abbrev pub failures : List Arrival → ℕ
failures [] = 0
failures (a ∷ rest) = if is_failure a.request then suc (failures rest) else failures rest

next-count :
    (threshold window now n k : ℕ) (r : Request)
    → clears r ≡ false
    → n + (if is_failure r then suc k else k) < threshold
    → next threshold window now r (closed n) ≡ closed (if is_failure r then suc n else n)
next-count threshold window now n k query h lt = ground arith
next-count threshold window now n k _ h lt = ground arith

next_all-count :
    (threshold window n : ℕ) (l : List Arrival)
    → All (λ a. clears a.request ≡ false) l
    → n + failures l < threshold
    → next_all threshold window l (closed n) ≡ closed (n + failures l)
next_all-count threshold window n [] h lt = ground arith
next_all-count threshold window n (a ∷ rest) h lt =
    rw (next-count threshold window a.now n (failures rest) a.request h.0 lt) (
      next_all-count threshold window (if is_failure a.request then suc n else n) rest h.1
        (ground arith)
      ∙ ground arith)

module _ (l : List Arrival) (b : Breaker) {n : ℕ} (v : IsValid b)
    (reliable : All (λ a. IsReliable b.has_redis a.link) l)
    (neutral : All (λ a. clears a.request ≡ false) l) (start : phase (current b) ≡ closed n) where
  -- If a valid breaker, with no Redis or one that answers throughout, is closed with a number of
  -- failures and no request of a run clears it, then it stays closed and counts exactly the
  -- failures of the run, as long as the count stays below the threshold.
  pub run-count :
      n + failures l < b.failure_threshold → phase (current (run l b)) ≡ closed (n + failures l)
  run-count lt =
      run-next_all l b v reliable
      ∙ ap (next_all b.failure_threshold b.recovery_window_sec l) start
      ∙ next_all-count b.failure_threshold b.recovery_window_sec n l neutral lt

  -- If a valid breaker, with no Redis or one that answers throughout, is closed and no request of a
  -- run clears it, then a failure after the run with which the count reaches the threshold opens
  -- the breaker, at the time of that failure.
  pub run-opens :
      (reason : Option String) (link : Link) (now : ℕ)
      → IsReliable b.has_redis link
      → n + failures l + 1 ≡ b.failure_threshold
      → phase (current (perform (fail reason) link now (run l b))) ≡ opened now
  run-opens reason link now up reached =
      let (t, w, r) = run-config l b in
      perform-next (fail reason) link now (run l b) (run-IsValid l b v)
        (subst (λ x. IsReliable x link) (sym r) up)
      ∙ (λ i. next (t i) (w i) now (fail reason) (run-count (omega arith) i))
      ∙ ground arith
