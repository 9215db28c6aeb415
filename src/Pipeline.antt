-- ===== src/Pipeline.antt =====
-- src/core/pipeline.py: the ordered steps that every dataset passes. What a step does is given by
-- the pipeline's methods, which a subclass replaces; the methods of the class itself pass a dataset
-- on. A dataset is its confidence score, the mark of poor quality, and what the pipeline does not
-- read. The times and identifiers of audit entries and incidents are arguments of the methods.
pub mod Moves
pub mod Correct
pub mod Skips
use data_service.Common.{
  ℕ, ◌+◌, String, Bool, true, false, not, ◌&&◌, Option, none, some, List, [], ◌∷◌, ◌++◌, leb, ltb,
  if◌then◌else◌, Result, ok, err, ◌>>=◌, String_discrete, strip,
}
use Prim.Native.String as Text
use data_service.Common.Dict
use data_service.Common.Int.{ℤ, pos, negsuc}

pub data StepName : Type 0 where
  raw_receipt schema_validate normalise timestamp_normalise semantic_validate dedup gap_detect
        freshness_classify reconcile quality_score canonical_output cache_populate persist deliver :
      StepName

abbrev pub name_of : StepName → String
name_of raw_receipt = "raw_receipt"
name_of schema_validate = "schema_validate"
name_of normalise = "normalise"
name_of timestamp_normalise = "timestamp_normalise"
name_of semantic_validate = "semantic_validate"
name_of dedup = "dedup"
name_of gap_detect = "gap_detect"
name_of freshness_classify = "freshness_classify"
name_of reconcile = "reconcile"
name_of quality_score = "quality_score"
name_of canonical_output = "canonical_output"
name_of cache_populate = "cache_populate"
name_of persist = "persist"
name_of deliver = "deliver"

-- The steps before the last one, in order.
abbrev pub checks : List StepName
checks =
    raw_receipt ∷ schema_validate ∷ normalise ∷ timestamp_normalise ∷ semantic_validate ∷ dedup
    ∷ gap_detect ∷ freshness_classify ∷ reconcile ∷ quality_score ∷ canonical_output
    ∷ cache_populate ∷ persist ∷ []

-- `PIPELINE_STEP_NAMES`, and the order of `run`.
abbrev pub pipeline_steps : List StepName
pipeline_steps = checks ++ deliver ∷ []

abbrev pub poor_quality_score_threshold : ℕ
poor_quality_score_threshold = 60

-- The score is the integer part of the number under `_confidenceScore`.
pub record Dataset (A : Type 0) : Type 0 where
  pub content : A
  pub confidence_score : Option ℤ
  pub poor_quality : Bool

pub record DataIncident : Type 0 where
  pub incident_id : String
  pub incident_type : String
  pub severity : String

-- What a step comes back with.
pub record StepResult (A : Type 0) : Type 0 where
  pub dataset : Dataset A
  pub is_ok : Bool
  pub incident : Option DataIncident

pub record PipelineResult (A : Type 0) : Type 0 where
  pub is_ok : Bool
  pub dataset : Dataset A
  pub step_failed : Option StepName
  pub incident : Option DataIncident
  pub steps_completed : List StepName
  pub poor_quality : Bool

pub record StepSkipEntry : Type 0 where
  pub step_name : String
  pub override_reason : String
  pub skipped_at : ℕ

-- `ValidationPipeline`, with the calls of its alert function.
pub record ValidationPipeline : Type 0 where
  pub skipped_steps : List (String × StepSkipEntry)
  pub alerts : List (String × String)

abbrev pub new_pipeline : ValidationPipeline
new_pipeline = record { skipped_steps = []; alerts = [] }

pub data PipelineError : Type 0 where
  unknown_step empty_reason long_reason : String → PipelineError

unfoldable pub is_step : String → List StepName → Bool
is_step name [] = false
is_step name (s ∷ ss) = elim (String_discrete name (name_of s)) [
  | yes e ↦ true
  | no n ↦ is_step name ss
]

register_skip : ℕ → String → String → ValidationPipeline → Result PipelineError ValidationPipeline
register_skip now name String.[] p = err (empty_reason name)
register_skip now name (String.◌∷◌ c r) p =
    let reason = String.◌∷◌ c r in
    if ltb 500 (Text.count reason)
    then err (long_reason name)
    else ok (record {
      skipped_steps =
          Dict.put String_discrete name
            (record { step_name = name; override_reason = reason; skipped_at = now })
            p.skipped_steps;
      alerts = p.alerts ++ (name, reason) ∷ [];
    })

unfoldable pub skip_step :
    ℕ → String → String → ValidationPipeline → Result PipelineError ValidationPipeline
unfolding is_step register_skip strip
skip_step now name override_reason p =
    if is_step name pipeline_steps
    then register_skip now name (strip override_reason) p
    else err (unknown_step name)

present : Option StepSkipEntry → Bool
present none = false
present (some e) = true

unfoldable pub is_skipped : ValidationPipeline → StepName → Bool
unfolding present
is_skipped p s = present (Dict.get String_discrete (name_of s) p.skipped_steps)

abbrev pub is_deliver : StepName → Bool
is_deliver deliver = true
is_deliver _ = false

abbrev pub is_quality_score : StepName → Bool
is_quality_score quality_score = true
is_quality_score _ = false

pub is_poor : Option ℤ → Bool
is_poor none = false
is_poor (some (pos n)) = ltb n poor_quality_score_threshold
is_poor (some (negsuc n)) = true

-- The variables of the loop of `run`.
pub record Progress (A : Type 0) : Type 0 where
  pub dataset : Dataset A
  pub steps_completed : List StepName
  pub poor_quality : Bool

module _ {A : Type 0} where
  unfoldable pub success : Progress A → PipelineResult A
  success q = record {
    is_ok = true;
    dataset = q.dataset;
    step_failed = none;
    incident = none;
    steps_completed = q.steps_completed;
    poor_quality = q.poor_quality;
  }

  unfoldable pub failure : StepName → Progress A → StepResult A → PipelineResult A
  failure s q o = record {
    is_ok = false;
    dataset = o.dataset;
    step_failed = some s;
    incident = o.incident;
    steps_completed = q.steps_completed;
    poor_quality = false;
  }

  -- `_apply_poor_quality_rule`, and its guard: without a score nothing changes.
  unfoldable pub apply_poor_quality_rule : Option ℤ → Progress A → Progress A
  unfolding is_poor
  apply_poor_quality_rule none q = q
  apply_poor_quality_rule (some score) q =
      if is_poor (some score)
      then record q { dataset = record q.dataset { poor_quality = true }; poor_quality = true }
      else record q { poor_quality = false }

  note_score : StepName → Progress A → Progress A
  unfolding apply_poor_quality_rule
  note_score s q =
      if is_quality_score s then apply_poor_quality_rule q.dataset.confidence_score q else q

  -- A step that was executed.
  record_step : StepName → Progress A → StepResult A → Result (PipelineResult A) (Progress A)
  unfolding note_score failure
  record_step s q o =
      if o.is_ok
      then ok (
          note_score s
            (record q { dataset = o.dataset; steps_completed = q.steps_completed ++ s ∷ [] }))
      else err (failure s q o)

  module _ (p : ValidationPipeline) (steps : StepName → Dataset A → StepResult A) where
    -- One round of the loop; `err` leaves it, by its `return` or its `break`.
    unfoldable pub advance : StepName → Progress A → Result (PipelineResult A) (Progress A)
    unfolding is_skipped record_step success
    advance s q =
        if is_skipped p s
        then ok q
        else if is_deliver s && q.poor_quality
        then err (success q)
        else record_step s q (steps s q.dataset)

    unfoldable pub run_steps : List StepName → Progress A → Result (PipelineResult A) (Progress A)
    unfolding advance
    run_steps [] q = ok q
    run_steps (s ∷ rest) q = do q' ← advance s q; run_steps rest q'

    unfoldable pub start : Dataset A → Progress A
    start d = record { dataset = d; steps_completed = []; poor_quality = false }

    conclude : Result (PipelineResult A) (Progress A) → PipelineResult A
    unfolding success
    conclude (ok q) = success q
    conclude (err r) = r

    unfoldable pub run : Dataset A → PipelineResult A
    unfolding run_steps conclude start
    run d = conclude (run_steps pipeline_steps (start d))

  -- The methods of the class itself.
  unfoldable pub pass_through : StepName → Dataset A → StepResult A
  pass_through s d = record { dataset = d; is_ok = true; incident = none }
