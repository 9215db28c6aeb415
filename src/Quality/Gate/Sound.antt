-- ===== src/Quality/Gate/Sound.antt =====
-- The gate blocks with a reason, and never without one.
use data_service.Common.{
  ℕ, ◌≡◌, ◌↔◌, refl, subst, Bool, true, false, ◌&&◌, List, [], ◌∷◌, ◌++◌, is_empty, arith, ok,
  Result, ◌>>=◌, >>=-eq-ok, if◌then◌else◌, Bool-cases, inl, inr, String,
}
use data_service.Common.Int.{ℤ}
use data_service.Common.Value.{Numbers, PyError, Value, get_value, either_value}
use data_service.Quality.Gate.{
  Check, DataQualityGate, check_freshness, check_completeness, check_timestamp_and_ohlcv,
  check_provider_availability, check_confidence, evaluate, make_gate, event_freshness, verdict,
  complete, missing, required_ohlcv_fields, meets_threshold, low_confidence, confidence_of,
  raw_confidence,
}
use data_service.Quality.Consistency.{Data, Failure, timestamp_failures, ohlcv_failures}

pub is_empty-append :
    {A : Type 0} (xs ys : List A) → is_empty (xs ++ ys) ≡ (is_empty xs && is_empty ys)
is_empty-append [] ys = refl
is_empty-append (x ∷ xs) ys = refl

-- Every check that passes has no reason, and every check that fails has one.
abbrev pub IsJustified : (n : Numbers) → Check n → Type 0
IsJustified n c = c.0 ≡ is_empty c.1

module _ (n : Numbers) where
  open n use {floats}

  event_freshness-IsJustified :
      (now : ℤ) (v : Value floats.Carrier) (c : Check n)
      → event_freshness n now v ≡ ok c
      → IsJustified n c
  unfolding event_freshness
  event_freshness-IsJustified now v c h = ground arith

  check_freshness-IsJustified :
      (now : ℤ) (d : Data n) (c : Check n) → check_freshness n now d ≡ ok c → IsJustified n c
  unfolding check_freshness
  check_freshness-IsJustified now d c h = ground (
    arith,
    event_freshness-IsJustified now
        (either_value n (get_value "eventTimeMs" d) (get_value "timestamp" d)) c,
  )

  complete-IsJustified : (ks : List String) → IsJustified n (complete n ks)
  unfolding complete
  complete-IsJustified [] = refl
  complete-IsJustified (k ∷ ks) = refl

  verdict-IsJustified : (l : List (Failure floats.Carrier)) → IsJustified n (verdict n l)
  unfolding verdict
  verdict-IsJustified [] = refl
  verdict-IsJustified (x ∷ l) = refl

  check_timestamp-IsJustified :
      (now : ℤ) (d : Data n) (c : Check n)
      → check_timestamp_and_ohlcv n now d ≡ ok c
      → IsJustified n c
  unfolding check_timestamp_and_ohlcv
  check_timestamp-IsJustified now d c h =
      let raw = either_value n (get_value "timestamp" d) (get_value "eventTimeMs" d) in
      let (found, p, more) =
        >>=-eq-ok (timestamp_failures n now raw)
          (λ f. ohlcv_failures n f d >>= λ g. ok (verdict n g)) h in
      let (failures, q, done) = >>=-eq-ok (ohlcv_failures n found d) (λ g. ok (verdict n g)) more in
      ground (arith, verdict-IsJustified failures)

  check_provider-IsJustified : (d : Data n) → IsJustified n (check_provider_availability n d)
  unfolding check_provider_availability
  check_provider-IsJustified d = ground arith

  check_confidence-IsJustified :
      (least : floats.Carrier) (d : Data n) (r : ℕ × Check n)
      → check_confidence n least d ≡ ok r
      → IsJustified n r.1
  unfolding check_confidence
  check_confidence-IsJustified least d r h =
      let rest : ℕ → Result PyError (ℕ × Check n) = λ score. ok (
        score,
        if meets_threshold n least score then (true, []) else (false, low_confidence score ∷ []),
      ) in
      let (score, p, done) = >>=-eq-ok (confidence_of n (raw_confidence n d)) rest h in
      elim (Bool-cases (meets_threshold n least score)) [
        | inl e ↦ ground arith
        | inr e ↦ ground arith
      ]

  make_gate-IsJustified :
      (a b c d : Check n) (e : ℕ × Check n)
      → IsJustified n a
      → IsJustified n b
      → IsJustified n c
      → IsJustified n d
      → IsJustified n e.1
      → let gate = make_gate n a b c d e in gate.signal_engine_allowed ≡ is_empty gate.block_reasons
  unfolding make_gate
  make_gate-IsJustified (a, rs) (b, bs) (c, cs) (d, ds) (score, (e, es)) p q r s t = ground (
    arith,
    is_empty-append rs (bs ++ (cs ++ (ds ++ es))),
    is_empty-append bs (cs ++ (ds ++ es)),
    is_empty-append cs (ds ++ es),
    is_empty-append ds es,
  )

  -- Inversion of a gate into its checks.
  pub evaluate-eq-ok :
      (now later : ℤ) (least : floats.Carrier) (d : Data n) (gate : DataQualityGate floats.Carrier)
      → evaluate n now later least d ≡ ok gate
      → (fresh valid : Check n) × (confident : ℕ × Check n) × (check_freshness n now d ≡ ok fresh)
        × (check_timestamp_and_ohlcv n later d ≡ ok valid)
        × (check_confidence n least d ≡ ok confident)
        × (make_gate n fresh
              (check_completeness n d)
              valid
              (check_provider_availability n d)
              confident
            ≡ gate)
  unfolding evaluate
  evaluate-eq-ok now later least d gate h =
      let done : Check n → Check n → ℕ × Check n → Result PyError (DataQualityGate floats.Carrier) =
        λ fresh valid confident. ok (
          make_gate n fresh (check_completeness n d) valid (check_provider_availability n d)
            confident) in
      let (fresh, p, h1) =
        >>=-eq-ok (check_freshness n now d)
          (λ a.
            check_timestamp_and_ohlcv n later d >>= λ b. check_confidence n least d >>= done a b)
          h in
      let (valid, q, h2) =
        >>=-eq-ok (check_timestamp_and_ohlcv n later d)
          (λ b. check_confidence n least d >>= done fresh b) h1 in
      let (confident, r, h3) = >>=-eq-ok (check_confidence n least d) (done fresh valid) h2 in
      (fresh, valid, confident, p, q, r, cc)

  -- The five conditions of a gate.
  abbrev pub HoldsAll : DataQualityGate floats.Carrier → Type 0
  HoldsAll gate =
      (gate.data_fresh ≡ true)
      × (gate.data_complete ≡ true)
      × (gate.data_timestamp_valid ≡ true)
      × (gate.data_provider_healthy ≡ true)
      × (gate.data_semantically_valid ≡ true)

  abbrev IsReasoned : DataQualityGate floats.Carrier → Type 0
  IsReasoned gate =
      ((gate.signal_engine_allowed ≡ true) ↔ (gate.block_reasons ≡ []))
      × ((gate.signal_engine_allowed ≡ true) ↔ HoldsAll gate)

  is_empty_iff : {A : Type 0} (b : Bool) (l : List A) → b ≡ is_empty l → (b ≡ true) ↔ (l ≡ [])
  is_empty_iff b [] h = (λ e. refl, λ e. h)
  is_empty_iff b (x ∷ l) h = (λ e. cc, λ e. cc)

  make_gate-HoldsAll :
      (a b c d : Check n) (e : ℕ × Check n)
      → ((make_gate n a b c d e).signal_engine_allowed ≡ true) ↔ HoldsAll (make_gate n a b c d e)
  unfolding make_gate
  make_gate-HoldsAll (a, rs) (b, bs) (c, cs) (d, ds) (score, (e, es)) =
      (λ h. ground arith, λ h. ground arith)

  make_gate-IsReasoned :
      (a b c d : Check n) (e : ℕ × Check n)
      → (let gate = make_gate n a b c d e in
          gate.signal_engine_allowed ≡ is_empty gate.block_reasons)
      → IsReasoned (make_gate n a b c d e)
  make_gate-IsReasoned a b c d e h =
      let gate = make_gate n a b c d e in
      (is_empty_iff gate.signal_engine_allowed gate.block_reasons h, make_gate-HoldsAll a b c d e)

  -- The gate lets the signal engine use a dataset exactly if it gives no reason to block it; and it
  -- lets it exactly if all five conditions hold.
  pub evaluate-reasons :
      (now later : ℤ) (least : floats.Carrier) (d : Data n) (gate : DataQualityGate floats.Carrier)
      → evaluate n now later least d ≡ ok gate
      → ((gate.signal_engine_allowed ≡ true) ↔ (gate.block_reasons ≡ []))
        × ((gate.signal_engine_allowed ≡ true) ↔ HoldsAll gate)
  unfolding check_completeness
  evaluate-reasons now later least d gate h =
      let (fresh, valid, confident, p, q, r, e) = evaluate-eq-ok now later least d gate h in
      let justified =
        make_gate-IsJustified fresh (check_completeness n d) valid (check_provider_availability n d)
          confident (check_freshness-IsJustified now d fresh p)
          (complete-IsJustified (missing n required_ohlcv_fields d))
          (check_timestamp-IsJustified later d valid q) (check_provider-IsJustified d)
          (check_confidence-IsJustified least d confident r) in
      subst IsReasoned e (make_gate-IsReasoned _ _ _ _ _ justified)
