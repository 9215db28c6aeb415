-- ===== src/Quality/Gate.antt =====
-- src/engines/quality_engine.py: `DataQualityGate`, the five conditions on a dataset. Each check comes
-- back with the reason for which it fails, which the source appends to a list.
pub mod Sound
pub mod Bars
pub mod Usable
use data_service.Common.{
  ℕ, ◌*◌, String, Bool, true, false, not, ◌&&◌, ◌||◌, Option, none, some, List, [], ◌∷◌, ◌++◌, leb,
  if◌then◌else◌, String_discrete, Result, ok, err, ◌>>=◌, is_empty, strip, str_eq,
}
use data_service.Common.Dict
use data_service.Common.Int.{ℤ, pos, negsuc, ltb_ℤ, ◌+ℤ◌}
use data_service.Common.Value.{
  Numbers, PyError, Value, none_value, whole, text, is_none, get_value, to_int, to_float, truth,
  either_value, catching, type_error, value_error, overflow_error,
}
use data_service.Validators.Ohlcv.{max_float, min_float}
use data_service.Quality.Score.{clamp}
use data_service.Quality.Consistency.{
  timestamp_max_age_ms, timestamp_future_tolerance_ms, Failure, not_positive, too_old, in_future,
  not_an_integer, price_not_positive, high_too_low, low_too_high, negative_volume, field_type_error,
  when, Data, range_failures, timestamp_failures, price_failures, convert, volume_failures,
  ohlcv_failures,
}

abbrev pub required_ohlcv_fields : List String
required_ohlcv_fields = "symbol" ∷ "timestamp" ∷ "open" ∷ "high" ∷ "low" ∷ "close" ∷ "volume" ∷ []

-- The reasons of `blockReasons`.
pub data Reason (A : Type 0) : Type 0 where
  quote_too_old : ℤ → ℤ → Reason A
  age_not_an_integer : Value A → Reason A
  event_too_old : ℤ → Reason A
  fields_missing : List String → Reason A
  timestamp_invalid : List (Failure A) → Reason A
  no_source : Reason A
  low_confidence : ℕ → Reason A

pub record DataQualityGate (A : Type 0) : Type 0 where
  pub data_fresh : Bool
  pub data_complete : Bool
  pub data_timestamp_valid : Bool
  pub data_provider_healthy : Bool
  pub data_semantically_valid : Bool
  pub signal_engine_allowed : Bool
  pub confidence_score : ℕ
  pub block_reasons : List (Reason A)

module _ (n : Numbers) where
  open n use {floats}

  -- Whether a check passes, and its reason if not.
  abbrev pub Check : Type 0
  Check = Bool × List (Reason floats.Carrier)

  abbrev passed : Check
  passed = (true, [])

  abbrev failed : Reason floats.Carrier → Check
  failed r = (false, r ∷ [])

  -- The end of `_check_freshness`: the age by the time of the event.
  pub event_freshness : ℤ → Value floats.Carrier → Result PyError Check
  event_freshness now event =
      if is_none event
      then ok passed
      else catching (to_int n event)
          (λ ts. ok (
            if ltb_ℤ (pos 0) ts && ltb_ℤ (ts +ℤ pos timestamp_max_age_ms) now
            then failed (event_too_old ts)
            else passed))
          (ok passed)

  -- The start of `_check_freshness`: the age that the caller declares.
  unfoldable pub check_freshness : ℤ → Data n → Result PyError Check
  unfolding event_freshness
  check_freshness now d =
      let age = get_value "quoteAgeMs" d in
      let limit = get_value "freshnessFreshMs" d in
      let rest =
        event_freshness now
          (either_value n (get_value "eventTimeMs" d) (get_value "timestamp" d)) in
      if is_none age || is_none limit
      then rest
      else catching (to_int n age)
          (λ a.
            catching (to_int n limit)
              (λ l. if ltb_ℤ l a then ok (failed (quote_too_old a l)) else rest)
              (ok (failed (age_not_an_integer age))))
          (ok (failed (age_not_an_integer age)))

  -- The required fields that have no value.
  pub missing : List String → Data n → List String
  missing [] d = []
  missing (k ∷ ks) d = when (is_none (get_value k d)) k ++ missing ks d

  pub complete : List String → Check
  complete [] = passed
  complete (k ∷ ks) = failed (fields_missing (k ∷ ks))

  unfoldable pub check_completeness : Data n → Check
  unfolding missing complete
  check_completeness d = complete (missing required_ohlcv_fields d)

  pub verdict : List (Failure floats.Carrier) → Check
  verdict [] = passed
  verdict (x ∷ xs) = failed (timestamp_invalid (x ∷ xs))

  unfoldable pub check_timestamp_and_ohlcv : ℤ → Data n → Result PyError Check
  unfolding timestamp_failures ohlcv_failures verdict
  check_timestamp_and_ohlcv now d = do
    found ←
        timestamp_failures n now
          (either_value n (get_value "timestamp" d) (get_value "eventTimeMs" d))
    failures ← ohlcv_failures n found d
    ok (verdict failures)

  -- A text that is not blank.
  pub names_a_source : Value floats.Carrier → Bool
  names_a_source (text s) = not (str_eq (strip s) "")
  names_a_source v = false

  unfoldable pub check_provider_availability : Data n → Check
  unfolding names_a_source
  check_provider_availability d =
      if truth n (get_value "providerAvailable" d)
      then passed
      else if names_a_source (get_value "source" d)
      then passed
      else if names_a_source (get_value "provider" d)
      then passed
      else failed no_source

  -- `data.get("confidenceScore", 0)`
  pub raw_confidence : Data n → Value floats.Carrier
  raw_confidence d = elim (Dict.get String_discrete "confidenceScore" d) [
    | none ↦ whole (pos 0)
    | some v ↦ v
  ]

  -- `max(0, min(int(float(raw)), 95))`
  pub confidence_of : Value floats.Carrier → Result PyError ℕ
  unfolding clamp
  confidence_of raw =
      catching (to_float n raw) (λ x. catching (n.int_of_float x) (λ z. ok (clamp z)) (ok 0)) (ok 0)

  -- `score >= max(min_confidence_score, 30.0)`
  unfoldable pub meets_threshold : floats.Carrier → ℕ → Bool
  unfolding max_float
  meets_threshold least score = n.le (max_float floats least (n.of_ℕ 30)) (n.of_ℕ score)

  unfoldable pub check_confidence : floats.Carrier → Data n → Result PyError (ℕ × Check)
  unfolding raw_confidence confidence_of meets_threshold
  check_confidence least d = do
    score ← confidence_of (raw_confidence d)
    ok (score, if meets_threshold least score then passed else failed (low_confidence score))

  pub make_gate : Check → Check → Check → Check → ℕ × Check → DataQualityGate floats.Carrier
  make_gate (a, rs) (b, bs) (c, cs) (d, ds) (score, (e, es)) =
      let all_passed = a && (b && (c && (d && e))) in
      record {
        data_fresh = a;
        data_complete = b;
        data_timestamp_valid = c;
        data_provider_healthy = d;
        data_semantically_valid = e;
        signal_engine_allowed = all_passed;
        confidence_score = score;
        block_reasons = if all_passed then [] else rs ++ (bs ++ (cs ++ (ds ++ es)));
      }

  -- The clock is read in the first check and in the third.
  unfoldable pub evaluate :
      ℤ → ℤ → floats.Carrier → Data n → Result PyError (DataQualityGate floats.Carrier)
  unfolding make_gate check_freshness check_completeness check_timestamp_and_ohlcv
      check_provider_availability check_confidence
  evaluate now later least d = do
    fresh ← check_freshness now d
    valid ← check_timestamp_and_ohlcv later d
    confident ← check_confidence least d
    ok (make_gate fresh (check_completeness d) valid (check_provider_availability d) confident)

-- `GateResult`: `passed`, `failed_conditions` and the score are those of the gate.
pub record GateResult (A : Type 0) : Type 0 where
  pub passed : Bool
  pub failed_conditions : List (Reason A)
  pub score : ℕ
  pub gate : Option (DataQualityGate A)

-- `check` and `evaluate_gate`, which have the same body.
unfoldable pub check :
    (n : Numbers)
    → ℤ
    → ℤ
    → n.floats.Carrier
    → List (String × Value n.floats.Carrier)
    → Result PyError (GateResult n.floats.Carrier)
unfolding evaluate
check n now later least d = do
  gate ← evaluate n now later least d
  ok (record {
    passed = gate.signal_engine_allowed;
    failed_conditions = gate.block_reasons;
    score = gate.confidence_score;
    gate = some gate;
  })
