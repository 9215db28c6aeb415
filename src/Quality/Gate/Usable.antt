-- ===== src/Quality/Gate/Usable.antt =====
-- What the gate lets through: datasets whose time stamp, prices and score are sound.
use data_service.Common.{
  ok_inj, ℕ, ◌≤◌, ◌≡◌, ◌⊎◌, refl, sym, ◌∙◌, ap, true, false, List, [], ◌∷◌, arith, ok, err, Result,
  ◌>>=◌, >>=-eq-ok, if◌then◌else◌, Bool-cases, inl, inr, String, ltb, subst,
}
use data_service.Common.Int.{ℤ, pos, ◌+ℤ◌, ltb_ℤ}
use data_service.Common.Value.{
  Numbers, PyError, Value, type_error, value_error, overflow_error, to_int, truth, none_value, flag,
  whole, real, text, composite, get_value, is_none, either_value, catching,
}
use data_service.Validators.Ohlcv.{max_float}
use data_service.Quality.Gate.Sound.{evaluate-eq-ok}
use data_service.Quality.Gate.{
  Check, DataQualityGate, check_completeness, check_timestamp_and_ohlcv,
  check_provider_availability, check_confidence, evaluate, make_gate, verdict, complete, missing,
  required_ohlcv_fields, low_confidence, confidence_of, raw_confidence, meets_threshold,
}
use data_service.Quality.Consistency.{
  Data, timestamp_failures, range_failures, ohlcv_failures, when, not_an_integer,
  timestamp_max_age_ms, timestamp_future_tolerance_ms,
}
use data_service.Quality.Gate.Bars.{
  append-eq-nil, when-eq-nil, Failures, HasAll, ohlcv-eq-nil, IsPriced,
}

module _ (n : Numbers) where
  open n use {floats}

  -- A time stamp is a whole number above 0, at most thirty days before the clock and at most a minute
  -- after it.
  abbrev pub IsTimely : ℤ → Value floats.Carrier → Type 0
  IsTimely now v =
      (ts : ℤ) × (to_int n v ≡ ok ts)
      × (ltb_ℤ (pos 0) ts ≡ true)
      × (ltb_ℤ (ts +ℤ pos timestamp_max_age_ms) now ≡ false)
      × (ltb_ℤ (now +ℤ pos timestamp_future_tolerance_ms) ts ≡ false)

  range-eq-nil :
      (now ts : ℤ)
      → range_failures n now ts ≡ []
      → (ltb_ℤ (pos 0) ts ≡ true)
        × (ltb_ℤ (ts +ℤ pos timestamp_max_age_ms) now ≡ false)
        × (ltb_ℤ (now +ℤ pos timestamp_future_tolerance_ms) ts ≡ false)
  unfolding range_failures
  range-eq-nil now ts e = elim (Bool-cases (ltb_ℤ (pos 0) ts)) [
    | inl after ↦
        let (p, q) = append-eq-nil (when _ _) _ (rw after at e) in
        (after, when-eq-nil _ _ p, when-eq-nil _ _ q)
    | inr before ↦ let bad = rw before at e in cc
  ]

  convert-IsTimely :
      (now : ℤ) (v : Value floats.Carrier) (m : Result PyError ℤ)
      → to_int n v ≡ m
      → catching m (λ ts. ok (range_failures n now ts)) (ok (not_an_integer v ∷ [])) ≡ ok []
      → IsTimely now v
  convert-IsTimely now v (ok ts) p e =
      let (after, recent, near) = range-eq-nil now ts (ok_inj e) in (ts, p, after, recent, near)
  convert-IsTimely now v (err type_error) p e = cc
  convert-IsTimely now v (err value_error) p e = cc
  convert-IsTimely now v (err overflow_error) p e = cc

  timestamp-eq-nil :
      (now : ℤ) (v : Value floats.Carrier)
      → is_none v ≡ false
      → timestamp_failures n now v ≡ ok []
      → IsTimely now v
  unfolding timestamp_failures
  timestamp-eq-nil now v present e = convert-IsTimely now v (to_int n v) refl (rw present at e)

  truth-is_none : (v : Value floats.Carrier) → truth n v ≡ true → is_none v ≡ false
  unfolding truth
  truth-is_none none_value h = cc
  truth-is_none (flag b) h = refl
  truth-is_none (whole z) h = refl
  truth-is_none (real x) h = refl
  truth-is_none (text t) h = refl
  truth-is_none (composite b) h = refl

  complete-HasAll :
      (ks : List String) (d : Data n) → (complete n (missing n ks d)).0 ≡ true → HasAll n ks d
  unfolding complete missing
  complete-HasAll [] d h = tt
  complete-HasAll (k ∷ ks) d h = elim (Bool-cases (is_none (get_value k d))) [
    | inl absent ↦ let bad = rw absent at h in cc
    | inr present ↦ (present, complete-HasAll ks d (rw present at h))
  ]

  small_lt : (score : ℕ) → ltb score 30 ≡ true → floats.lt (n.of_ℕ score) (n.of_ℕ 30) ≡ true
  small_lt score h = n.lt_of_ℕ score 30 (ground arith) (omega arith) ∙ h

  meets_threshold-le :
      (least : floats.Carrier) (score : ℕ) → meets_threshold n least score ≡ true → 30 ≤ score
  unfolding meets_threshold max_float
  meets_threshold-le least score h = elim (Bool-cases (ltb score 30)) [
    | inr enough ↦ ground arith
    | inl under ↦ elim (Bool-cases (floats.lt least (n.of_ℕ 30))) [
      | inl below ↦
          let most = rw (below, meets_threshold) at h in
          let bad =
            n.le_lt_trans (n.of_ℕ 30) (n.of_ℕ score) (n.of_ℕ 30) most (small_lt score under) in
          let not_less = floats.lt_irrefl (n.of_ℕ 30) in cc
      | inr above ↦
          let most = rw (above, meets_threshold) at h in
          let bad = n.le_lt_trans least (n.of_ℕ score) (n.of_ℕ 30) most (small_lt score under) in cc
    ]
  ]

  check_confidence-le :
      (least : floats.Carrier) (d : Data n) (r : ℕ × Check n)
      → check_confidence n least d ≡ ok r
      → r.1.0 ≡ true
      → 30 ≤ r.0
  unfolding check_confidence
  check_confidence-le least d r h passed =
      let rest : ℕ → Result PyError (ℕ × Check n) = λ score. ok (
        score,
        if meets_threshold n least score then (true, []) else (false, low_confidence score ∷ []),
      ) in
      let (score, p, done) = >>=-eq-ok (confidence_of n (raw_confidence n d)) rest h in
      elim (Bool-cases (meets_threshold n least score)) [
        | inl e ↦ ground (arith, meets_threshold-le least score)
        | inr e ↦ ground arith
      ]

  verdict-eq-nil : (l : Failures n) → (verdict n l).0 ≡ true → l ≡ []
  unfolding verdict
  verdict-eq-nil [] t = refl
  verdict-eq-nil (x ∷ l) t = cc

  check_timestamp-eq-ok :
      (now : ℤ) (d : Data n) (c : Check n)
      → check_timestamp_and_ohlcv n now d ≡ ok c
      → c.0 ≡ true
      → (found : Failures n) × (timestamp_failures n now
            (either_value n (get_value "timestamp" d) (get_value "eventTimeMs" d))
          ≡ ok found)
        × (ohlcv_failures n found d ≡ ok [])
  unfolding check_timestamp_and_ohlcv
  check_timestamp-eq-ok now d c h passed =
      let raw = either_value n (get_value "timestamp" d) (get_value "eventTimeMs" d) in
      let (found, p, more) =
        >>=-eq-ok (timestamp_failures n now raw)
          (λ f. ohlcv_failures n f d >>= λ g. ok (verdict n g)) h in
      let (failures, q, done) = >>=-eq-ok (ohlcv_failures n found d) (λ g. ok (verdict n g)) more in
      (
        found,
        p,
        q ∙ ap ok (verdict-eq-nil failures (ap (λ (x : Check n). x.0) (ok_inj done) ∙ passed)),
      )

  -- What a dataset has that the gate lets through.
  pub record IsUsable (now : ℤ) (score : ℕ) (d : Data n) : Type 0 where
    pub has_all : HasAll n required_ohlcv_fields d
    pub timely :
        (truth n (get_value "timestamp" d) ≡ false) ⊎ IsTimely now (get_value "timestamp" d)
    pub priced : (o h l c : floats.Carrier) × IsPriced n d o h l c
    pub scored : 30 ≤ score

  make_gate-allowed :
      (a b c d : Check n) (e : ℕ × Check n)
      → (make_gate n a b c d e).signal_engine_allowed ≡ true
      → (b.0 ≡ true) × (c.0 ≡ true) × (e.1.0 ≡ true)
  unfolding make_gate
  make_gate-allowed a b c d e h = (ground arith, ground arith, ground arith)

  make_gate-score :
      (a b c d : Check n) (e : ℕ × Check n) → (make_gate n a b c d e).confidence_score ≡ e.0
  unfolding make_gate
  make_gate-score a b c d e = refl

  timestamp-IsTimely :
      (now : ℤ) (d : Data n) (found : Failures n)
      → found ≡ []
      → timestamp_failures n now
          (either_value n (get_value "timestamp" d) (get_value "eventTimeMs" d))
        ≡ ok found
      → truth n (get_value "timestamp" d) ≡ true
      → IsTimely now (get_value "timestamp" d)
  unfolding either_value
  timestamp-IsTimely now d found e p t =
      timestamp-eq-nil now (get_value "timestamp" d) (truth-is_none (get_value "timestamp" d) t)
        (rw t at p ∙ ap ok e)

  -- A dataset that the gate lets through is usable: every required field has a value; the time stamp,
  -- unless its truth value is false, is a whole number above 0, at most thirty days before the
  -- clock and at most a minute after it; the four prices are numbers, none of them at or below 0,
  -- and, if the opening price is not NaN, the high and the low bound the open and the close; the
  -- volume is not negative; and the score is at least 30, however low a threshold the caller asks for.
  pub evaluate-IsUsable :
      (now later : ℤ) (least : floats.Carrier) (d : Data n) (gate : DataQualityGate floats.Carrier)
      → evaluate n now later least d ≡ ok gate
      → gate.signal_engine_allowed ≡ true
      → IsUsable later gate.confidence_score d
  unfolding check_completeness
  evaluate-IsUsable now later least d gate h allowed =
      let (fresh, valid, confident, p, q, r, e) = evaluate-eq-ok n now later least d gate h in
      let (complete_true, valid_true, confident_true) =
        make_gate-allowed fresh (check_completeness n d) valid (check_provider_availability n d)
          confident
          (ap (λ (g : DataQualityGate floats.Carrier). g.signal_engine_allowed) e ∙ allowed) in
      let all = complete-HasAll required_ohlcv_fields d complete_true in
      let (found, stamped, bars) = check_timestamp-eq-ok later d valid q valid_true in
      let (nothing, priced) = ohlcv-eq-nil n found d all bars in
      record {
        has_all = all;
        timely = elim (Bool-cases (truth n (get_value "timestamp" d))) [
          | inl set ↦ inr (timestamp-IsTimely later d found nothing stamped set)
          | inr unset ↦ inl unset
        ];
        priced = priced;
        scored =
            subst (λ s. 30 ≤ s)
              (sym (
                  make_gate-score fresh (check_completeness n d) valid
                    (check_provider_availability n d) confident)
                ∙ ap (λ (g : DataQualityGate floats.Carrier). g.confidence_score) e)
              (check_confidence-le least d confident r confident_true);
      }
