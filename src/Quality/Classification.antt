-- ===== src/Quality/Classification.antt =====
-- src/engines/quality_engine.py: `classify_quality` and `apply_strategy_overrides`. Scores are not
-- negative. Reasons are data: what the source searches a reason's text for is a test on them, where
-- the text of a value that the caller sent is a parameter.
pub mod Overrides
use data_service.Common.{
  ℕ, max, String, Bool, true, false, not, ◌&&◌, ◌||◌, Option, none, some, List, [], ◌∷◌, ◌++◌, leb,
  ltb, if◌then◌else◌, Result, ok, err, ◌>>=◌, is_empty, map,
}
use data_service.Common.Value.{Value}
use data_service.Quality.Score.{
  Grade, blocked, low, medium, high, grade_score, score_max, grade_blocked_threshold,
}
use data_service.Quality.Gate.{
  DataQualityGate, GateResult, Reason, quote_too_old, age_not_an_integer, event_too_old,
  fields_missing, timestamp_invalid, no_source, low_confidence,
}
use data_service.Quality.Consistency.{Failure, not_an_integer, field_type_error}

pub data Remark (A : Type 0) : Type 0 where
  condition : Reason A → Remark A
  grade_remark : Grade → ℕ → Remark A
  below_minimum : String → ℕ → ℕ → Remark A
  freshness_required : String → Remark A

pub record QualityClassification (A : Type 0) : Type 0 where
  pub grade : Grade
  pub signal_engine_allowed : Bool
  pub score : ℕ
  pub reasons : List (Remark A)

pub record StrategyQualityProfile : Type 0 where
  pub strategy_id : String
  pub min_confidence_score : ℕ
  pub require_fresh_data : Bool

-- `ValidationError`: the score of a classification is at most 95.
pub data ClassificationError : Type 0 where
  validation_error : ClassificationError

pub any {ℓ} : {A : Type ℓ} → (A → Bool) → List A → Bool
any p [] = false
any p (x ∷ xs) = p x || any p xs

-- Whether the text of a value, or of the error that converting it raises, has the word "score" in
-- any case, and whether it has "dataFresh=False".
pub record Texts (A : Type 0) : Type 0 where
  pub shows_score : Value A → Bool
  pub shows_stale : Value A → Bool

module _ {A : Type 0} (texts : Texts A) where
  failure_shows : (Value A → Bool) → Failure A → Bool
  failure_shows shows (not_an_integer v) = shows v
  failure_shows shows (field_type_error v) = shows v
  failure_shows shows f = false

  mentions_score : Reason A → Bool
  unfolding failure_shows any
  mentions_score (age_not_an_integer v) = texts.shows_score v
  mentions_score (timestamp_invalid l) = any (failure_shows texts.shows_score) l
  mentions_score (low_confidence score) = true
  mentions_score r = false

  pub mentions_stale : Reason A → Bool
  unfolding failure_shows any
  mentions_stale (quote_too_old a l) = true
  mentions_stale (age_not_an_integer v) = true
  mentions_stale (event_too_old ts) = true
  mentions_stale (timestamp_invalid l) = any (failure_shows texts.shows_stale) l
  mentions_stale r = false

  -- The remark on the grade, if there is one.
  grade_remarks : Grade → ℕ → List (Reason A) → List (Remark A)
  unfolding any mentions_score
  grade_remarks blocked score failed =
      if any mentions_score failed then [] else grade_remark blocked score ∷ []
  grade_remarks low score failed = grade_remark low score ∷ []
  grade_remarks medium score failed = grade_remark medium score ∷ []
  grade_remarks high score failed = []

  checked : QualityClassification A → Result ClassificationError (QualityClassification A)
  checked c = if leb c.score score_max then ok c else err validation_error

  unfoldable pub classify_quality :
      ℕ → GateResult A → Result ClassificationError (QualityClassification A)
  unfolding checked grade_remarks
  classify_quality score r = checked (record {
    grade = grade_score score;
    signal_engine_allowed = leb grade_blocked_threshold score && r.passed;
    score = score;
    reasons =
        map condition r.failed_conditions
        ++ grade_remarks (grade_score score) score r.failed_conditions;
  })

  pub gate_is_stale : Option (DataQualityGate A) → Bool
  gate_is_stale none = false
  gate_is_stale (some gate) = not gate.data_fresh

  unfoldable pub freshness_failed : GateResult A → Bool
  unfolding gate_is_stale any mentions_stale
  freshness_failed r = gate_is_stale r.gate || any mentions_stale r.failed_conditions

  minimum_remarks : ℕ → StrategyQualityProfile → List (Remark A)
  minimum_remarks score profile =
      let effective_min = max profile.min_confidence_score grade_blocked_threshold in
      if ltb score effective_min
      then below_minimum profile.strategy_id effective_min score ∷ []
      else []

  same_flag : Bool → Bool → Bool
  same_flag true b = b
  same_flag false b = not b

  -- `extra_reasons`
  unfoldable pub extra_remarks : ℕ → GateResult A → StrategyQualityProfile → List (Remark A)
  unfolding minimum_remarks freshness_failed
  extra_remarks score r profile =
      minimum_remarks score profile
      ++ (if profile.require_fresh_data && freshness_failed r
          then freshness_required profile.strategy_id ∷ []
          else [])

  -- What follows the BLOCKED floor.
  pub override :
      GateResult A
      → StrategyQualityProfile
      → QualityClassification A
      → Result ClassificationError (QualityClassification A)
  unfolding checked freshness_failed extra_remarks same_flag
  override r profile base =
      let stale = profile.require_fresh_data && freshness_failed r in
      let allowed = if stale then false else base.signal_engine_allowed in
      let extra = extra_remarks base.score r profile in
      if same_flag allowed base.signal_engine_allowed && is_empty extra
      then ok base
      else checked (record {
        grade = base.grade;
        signal_engine_allowed = allowed;
        score = base.score;
        reasons = base.reasons ++ extra;
      })

  unfoldable pub apply_strategy_overrides :
      ℕ
      → GateResult A
      → StrategyQualityProfile
      → Result ClassificationError (QualityClassification A)
  unfolding classify_quality override
  apply_strategy_overrides score r profile = do
    base ← classify_quality score r
    if ltb score grade_blocked_threshold then ok base else override r profile base
