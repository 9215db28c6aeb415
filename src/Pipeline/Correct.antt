-- ===== src/Pipeline/Correct.antt =====
-- What the result of a whole run says.
use data_service.Common.{
  ◌≡◌, refl, sym, ◌∙◌, ap, subst, All, Bool, true, false, List, [], ◌∷◌, ◌++◌, append-nil,
  append_assoc, ◌⊎◌, inl, inr, Result, ok, err, ◌>>=◌, Bool-cases, if◌then◌else◌, arith,
}
use data_service.Pipeline.{
  StepName, deliver, Dataset, StepResult, PipelineResult, Progress, ValidationPipeline, is_skipped,
  is_deliver, success, failure, note_score, record_step, advance, run_steps, run, start, conclude,
  checks, pipeline_steps,
}
use data_service.Pipeline.Moves.{
  kept, kept-append, passed, IsFailureIn, AfterAll, run_steps-AfterAll,
}

by_flag :
    (b : Bool) (c x y : List StepName)
    → (b ≡ true → c ≡ x)
    → (b ≡ false → c ≡ y)
    → c ≡ (if b then x else y)
by_flag true c x y h k = h refl
by_flag false c x y h k = k refl

kept_skipped :
    (p : ValidationPipeline) (s : StepName) (l : List StepName)
    → is_skipped p s ≡ true
    → kept p l ≡ kept p (l ++ s ∷ [])
kept_skipped p s l gone = rw (kept-append, gone) (sym (append-nil (kept p l)))

kept_executed :
    (p : ValidationPipeline) (s : StepName) (l : List StepName)
    → is_skipped p s ≡ false
    → kept p l ++ s ∷ [] ≡ kept p (l ++ s ∷ [])
kept_executed p s l here = rw (kept-append, here)

module _ {A : Type 0} (p : ValidationPipeline) (steps : StepName → Dataset A → StepResult A) where
  run_steps-append :
      (xs ys : List StepName) (q : Progress A)
      → run_steps p steps (xs ++ ys) q ≡ (run_steps p steps xs q >>= run_steps p steps ys)
  unfolding run_steps
  run_steps-append [] ys q = refl
  run_steps-append (x ∷ xs) ys q =
      elim (advance p steps x q)
        as (λ m.
          (m >>= run_steps p steps (xs ++ ys))
          ≡ ((m >>= run_steps p steps xs) >>= run_steps p steps ys)) [
            | ok q' ↦ run_steps-append xs ys q'
            | err r ↦ refl
          ]

  -- A run that ends well: of the steps that are not skipped all are completed, but delivery is not
  -- if the dataset is of poor quality.
  record IsComplete (r : PipelineResult A) : Type 0 where
    is_ok : r.is_ok ≡ true
    completed :
        r.steps_completed ≡ (if r.poor_quality then kept p checks else kept p pipeline_steps)

  abbrev IsJudged : Dataset A → PipelineResult A → Type 0
  IsJudged d r = IsComplete r ⊎ IsFailureIn p steps [] d pipeline_steps r

  judge_early :
      (d : Dataset A) (r : PipelineResult A)
      → IsFailureIn p steps [] d checks r
      → IsFailureIn p steps [] d pipeline_steps r
  judge_early d r h = record {
    done = h.done;
    failed = h.failed;
    left = h.left ++ deliver ∷ [];
    parts =
        ap (λ l. l ++ deliver ∷ []) h.parts
        ∙ append_assoc h.done (h.failed ∷ h.left) (deliver ∷ []);
    failure = h.failure;
  }

  judge_delivery :
      (d : Dataset A) (q : Progress A)
      → q.steps_completed ≡ kept p checks
      → q.dataset ≡ passed p steps checks d
      → IsJudged d (conclude p steps (run_steps p steps (deliver ∷ []) q))
  unfolding run_steps conclude advance record_step failure success note_score
  judge_delivery d q e e' = elim (Bool-cases (is_skipped p deliver)) [
    | inl gone ↦ rw gone (
        inl (record {
          is_ok = refl;
          completed = by_flag _ _ _ _ (λ poor. e) (λ good. e ∙ kept_skipped p deliver checks gone);
        }))
    | inr here ↦ elim (Bool-cases q.poor_quality) [
      | inl poor ↦ rw (here, poor) (inl (record { is_ok = refl; completed = e }))
      | inr good ↦ elim (Bool-cases (steps deliver q.dataset).is_ok) [
        | inl fine ↦
            rw (here, good, fine)
              (inl (record {
                is_ok = refl;
                completed = ap (λ l. l ++ deliver ∷ []) e ∙ kept_executed p deliver checks here;
              }))
        | inr bad ↦
            rw (here, good, bad)
              (inr (record {
                done = checks;
                failed = deliver;
                left = [];
                parts = refl;
                failure = record {
                  not_ok = refl;
                  not_poor = refl;
                  step = refl;
                  executed = here;
                  before = e;
                  refused = ap (λ x. (steps deliver x).is_ok) (sym e') ∙ bad;
                  dataset = ap (λ x. (steps deliver x).dataset) e';
                  incident = ap (λ x. (steps deliver x).incident) e';
                };
              }))
      ]
    ]
  ]

  judge :
      (m : Result (PipelineResult A) (Progress A)) (d : Dataset A)
      → AfterAll p steps checks (start p steps d) m
      → IsJudged d (conclude p steps (m >>= run_steps p steps (deliver ∷ [])))
  unfolding conclude start
  judge (ok q) d (h, h') = judge_delivery d q h h'
  judge (err r) d h = inr (judge_early d r h)

  front : All (λ s. is_deliver s ≡ false) checks
  front = (
    refl,
    (
      refl,
      (refl, (refl, (refl, (refl, (refl, (refl, (refl, (refl, (refl, (refl, (refl, tt))))))))))),
    ),
  )

  run-IsJudged : (d : Dataset A) → IsJudged d (run p steps d)
  unfolding run
  run-IsJudged d =
      subst (λ m. IsJudged d (conclude p steps m))
        (sym (run_steps-append checks (deliver ∷ []) (start p steps d)))
        (judge (run_steps p steps checks (start p steps d)) d
          (run_steps-AfterAll p steps checks (start p steps d) front))

  -- A run whose result is good has completed, in order, all steps that are not skipped; if it
  -- reports poor quality, all but delivery.
  pub run-completed :
      (d : Dataset A)
      → (run p steps d).is_ok ≡ true
      → (run p steps d).steps_completed
        ≡ (if (run p steps d).poor_quality then kept p checks else kept p pipeline_steps)
  run-completed d h = elim (run-IsJudged d) [
    | inl c ↦ c.completed
    | inr f ↦ absurd (ground (arith, f.failure.not_ok, h))
  ]

  -- A run whose result is bad was ended by a step that was executed and refused what it was given:
  -- the dataset of the run, passed through the steps before it that are not skipped, each given what
  -- the one before came back with. The result names that step and carries the dataset and the
  -- incident that it came back with, and the completed steps are those before it, in order,
  -- that are not skipped.
  pub run-failed :
      (d : Dataset A)
      → (run p steps d).is_ok ≡ false
      → IsFailureIn p steps [] d pipeline_steps (run p steps d)
  run-failed d h = elim (run-IsJudged d) [ inl c ↦ absurd (ground (arith, c.is_ok, h)) | inr f ↦ f ]
