-- ===== src/Pipeline/Skips.antt =====
-- The audit of skipped steps.
use data_service.Common.{
  ℕ, ◌≤◌, ◌≡◌, ◌≢◌, refl, subst, String, true, some, [], ◌∷◌, ◌++◌, ltb, Bool-cases, inl, inr, ok,
  arith, String_discrete, strip,
}
use Prim.Native.String as Text
use data_service.Common.Dict
use data_service.Pipeline.{
  StepSkipEntry, ValidationPipeline, skip_step, register_skip, is_step, pipeline_steps,
}

abbrev pub entry_of : ℕ → String → String → StepSkipEntry
entry_of now name reason = record { step_name = name; override_reason = reason; skipped_at = now }

-- What a step that has been put on the list of skipped steps leaves there.
pub record IsAudited (now : ℕ) (name reason : String) (p p' : ValidationPipeline) : Type 0 where
  pub entry : Dict.get String_discrete name p'.skipped_steps ≡ some (entry_of now name reason)
  pub others :
      (q : String)
      → name ≢ q
      → Dict.get String_discrete q p'.skipped_steps ≡ Dict.get String_discrete q p.skipped_steps
  pub alerted : p'.alerts ≡ p.alerts ++ (name, reason) ∷ []
  pub given : reason ≢ ""
  pub short : Text.count reason ≤ 500

abbrev added : ℕ → String → String → ValidationPipeline → ValidationPipeline
added now name reason p = record {
  skipped_steps = Dict.put String_discrete name (entry_of now name reason) p.skipped_steps;
  alerts = p.alerts ++ (name, reason) ∷ [];
}

register_skip-IsAudited :
    (now : ℕ) (name reason : String) (p p' : ValidationPipeline)
    → register_skip now name reason p ≡ ok p'
    → IsAudited now name reason p p'
unfolding register_skip
register_skip-IsAudited now name String.[] p p' h = absurd (ground arith)
register_skip-IsAudited now name (String.◌∷◌ c r) p p' h =
    let reason = String.◌∷◌ c r in
    elim (Bool-cases (ltb 500 (Text.count reason))) [
      | inl long ↦ absurd (ground arith)
      | inr short ↦
          let e : added now name reason p ≡ p' = ground arith in
          subst (IsAudited now name reason p) e (record {
            entry = Dict.get-put_self String_discrete name _ p.skipped_steps;
            others = λ q n. Dict.get-put_ne String_discrete name q _ p.skipped_steps n;
            alerted = refl;
            given = λ w. cc;
            short = ground arith;
          })
    ]

-- A step is put on the list of skipped steps only if it is one of the pipeline's and the reason,
-- stripped of white space at both ends, has 1 to 500 characters; the entry then has that reason,
-- an alert is raised with it, and the entries of other steps stay.
pub skip_step-IsAudited :
    (now : ℕ) (name override_reason : String) (p p' : ValidationPipeline)
    → skip_step now name override_reason p ≡ ok p'
    → (is_step name pipeline_steps ≡ true) × IsAudited now name (strip override_reason) p p'
unfolding skip_step
skip_step-IsAudited now name override_reason p p' h =
    elim (Bool-cases (is_step name pipeline_steps)) [
      | inl known ↦
          (known, register_skip-IsAudited now name (strip override_reason) p p' (ground arith))
      | inr unknown ↦ absurd (ground arith)
    ]
