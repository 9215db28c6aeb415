-- ===== src/Quality/Score.antt =====
-- src/engines/quality_engine.py: the data confidence score and its grade. A whole score times 0.8,
-- cut off, is four fifths of it cut off: the two are equal below 2 ^ 50.
pub mod Bounds
use data_service.Common.{
  ℕ, suc, ◌*◌, ◌/◌, min, String, Bool, true, false, ◌&&◌, ◌||◌, Option, none, some, List, [], ◌∷◌,
  leb, ltb, if◌then◌else◌, String_discrete, Result, ok, err, ◌>>=◌,
}
use data_service.Common.Dict
use data_service.Common.Int.{ℤ, pos, negsuc, ◌+ℤ◌, pos_part}
use data_service.Common.Value.{Numbers, PyError}
use data_service.Validators.Ohlcv.{max_float, min_float}

-- `_SCORE_MAX`
abbrev pub score_max : ℕ
score_max = 95

abbrev pub grade_blocked_threshold : ℕ
grade_blocked_threshold = 30

abbrev pub grade_low_threshold : ℕ
grade_low_threshold = 50

abbrev pub grade_medium_threshold : ℕ
grade_medium_threshold = 80

-- `_FRESHNESS_SCORE`
abbrev pub freshness_scores : List (String × ℕ)
freshness_scores =
    ("FRESH", 35) ∷ ("AGING", 25) ∷ ("STALE", 10) ∷ ("EXPIRED", 0) ∷ ("UNKNOWN", 5) ∷ []

pub data Grade : Type 0 where
  blocked low medium high : Grade

unfoldable pub grade_score : ℕ → Grade
grade_score score =
    if ltb score grade_blocked_threshold
    then blocked
    else if ltb score grade_low_threshold
    then low
    else if ltb score grade_medium_threshold
    then medium
    else high

unfoldable pub is_signal_engine_allowed : ℕ → Bool
is_signal_engine_allowed score = leb grade_blocked_threshold score

-- `int(raw_score * 0.8)`
unfoldable pub penalise : ℤ → ℤ
penalise (pos n) = pos (n * 4 / 5)
penalise (negsuc n) = let m = suc n * 4 / 5 in elim m [ suc k ↦ negsuc k | _ ↦ pos 0 ]

-- `max(0, min(raw_score, _SCORE_MAX))`
unfoldable pub clamp : ℤ → ℕ
clamp z = min (pos_part z) score_max

-- The score once the share of agreeing sources is a whole number of tenths.
unfoldable pub total_score : ℤ → ℤ → ℤ → Bool → ℤ → Bool → ℕ
unfolding penalise clamp
total_score freshness completeness provider_health timestamp_valid agreement sequence_integrity =
    let timestamp = if timestamp_valid then pos 10 else pos 0 in
    let raw = freshness +ℤ completeness +ℤ provider_health +ℤ timestamp +ℤ agreement in
    clamp (if sequence_integrity then raw else penalise raw)

freshness_score : String → ℕ
freshness_score label = elim (Dict.get String_discrete label freshness_scores) [
  | none ↦ 5
  | some score ↦ score
]

module _ (n : Numbers) where
  open n use {floats}

  unfoldable pub compute_confidence_score :
      ℤ → ℤ → ℤ → Bool → floats.Carrier → Bool → Result PyError ℕ
  unfolding total_score
  compute_confidence_score freshness completeness provider_health valid agreement integrity = do
    tenths ← n.int_of_float (n.mul agreement (n.of_ℕ 10))
    ok (total_score freshness completeness provider_health valid tenths integrity)

  -- `int(max(0.0, min(completeness_percent, 100.0)) * 0.25)`
  completeness_score : floats.Carrier → Result PyError ℤ
  unfolding max_float min_float
  completeness_score percent =
      let bounded = max_float floats floats.origin (min_float floats percent (n.of_ℕ 100)) in
      n.int_of_float (n.mul bounded n.quarter)

  unfoldable pub compute_confidence_from_inputs :
      String → floats.Carrier → Bool → Bool → floats.Carrier → Bool → Result PyError ℕ
  unfolding freshness_score completeness_score compute_confidence_score
  compute_confidence_from_inputs label percent provider_healthy valid agreement integrity_ok = do
    completeness ← completeness_score percent
    compute_confidence_score (pos (freshness_score label)) completeness
        (if provider_healthy then pos 20 else pos 0) valid agreement integrity_ok
