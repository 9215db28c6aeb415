-- ===== src/Tests/Steps.antt =====
-- The validation pipeline at concrete datasets; their content is a number.
use data_service.Common.{
  ℕ, ◌≡◌, refl, true, false, none, some, [], ◌∷◌, ok, err, String_discrete, strip, if◌then◌else◌,
}
use data_service.Common.Dict
use data_service.Common.Int.{pos}
use data_service.Pipeline
use data_service.Pipeline.{
  Dataset, StepName, StepResult, ValidationPipeline, new_pipeline, run, skip_step, pass_through,
  checks, pipeline_steps, raw_receipt, schema_validate, normalise, is_step, is_skipped, advance,
  success,
}
use data_service.Pipeline.Moves.{kept, IsFailureIn}
use data_service.Pipeline.Correct.{run-completed, run-failed}
use data_service.Pipeline.Skips.{entry_of}

-- A score of 40 is poor.
abbrev dataset : Dataset ℕ
dataset = record { content = 7; confidence_score = some (pos 40); poor_quality = false }

-- The normaliser refuses every dataset.
abbrev refusing : StepName → Dataset ℕ → StepResult ℕ
refusing normalise d = record { dataset = d; is_ok = false; incident = none }
refusing s d = record { dataset = d; is_ok = true; incident = none }

abbrev skipping : ValidationPipeline
skipping = record {
  skipped_steps = ("schema_validate", entry_of 5 "schema_validate" "vendor outage") ∷ [];
  alerts = ("schema_validate", "vendor outage") ∷ [];
}

poor-ok : (run new_pipeline pass_through dataset).is_ok ≡ true
unfolding run pass_through success Dict.get
poor-ok = refl

run-completed_example : (run new_pipeline pass_through dataset).steps_completed ≡ (
    if (run new_pipeline pass_through dataset).poor_quality
    then kept new_pipeline checks
    else kept new_pipeline pipeline_steps)
run-completed_example = run-completed new_pipeline pass_through dataset poor-ok

-- It is persisted but not delivered.
poor-steps : (run new_pipeline pass_through dataset).steps_completed ≡ checks
unfolding run pass_through success Dict.get
poor-steps = refl

refused-not_ok : (run skipping refusing dataset).is_ok ≡ false
unfolding run Dict.get String_discrete
refused-not_ok = refl

run-failed_example :
    IsFailureIn skipping refusing [] dataset pipeline_steps (run skipping refusing dataset)
run-failed_example = run-failed skipping refusing dataset refused-not_ok

refused-steps : (run skipping refusing dataset).steps_completed ≡ raw_receipt ∷ []
unfolding run Dict.get String_discrete
refused-steps = refl

skips : skip_step 5 "schema_validate" "  vendor outage " new_pipeline ≡ ok skipping
unfolding skip_step strip Dict.put String_discrete
skips = refl

blank_reason : skip_step 5 "dedup" "   " new_pipeline ≡ err (Pipeline.empty_reason "dedup")
unfolding skip_step strip String_discrete
blank_reason = refl
