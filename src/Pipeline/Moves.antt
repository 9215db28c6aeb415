-- ===== src/Pipeline/Moves.antt =====
-- The loop of the pipeline: what a round and a run of rounds leave behind.
use data_service.Common.{
  ◌≡◌, refl, sym, ◌∙◌, ap, subst, true, false, ◌&&◌, ltb, Option, none, some, List, [], ◌∷◌, ◌++◌,
  append-nil, append_assoc, ◌⊎◌, inl, inr, Result, ok, err, ◌>>=◌, All, Bool-cases, if◌then◌else◌,
  arith,
}
use data_service.Common.Int.{ℤ, pos, negsuc}
use data_service.Pipeline.{
  StepName, quality_score, Dataset, StepResult, PipelineResult, Progress, ValidationPipeline,
  is_skipped, is_deliver, success, failure, note_score, record_step, apply_poor_quality_rule,
  advance, run_steps,
}

-- The steps of a list that are not skipped.
abbrev pub kept : ValidationPipeline → List StepName → List StepName
kept p [] = []
kept p (s ∷ ss) = if is_skipped p s then kept p ss else s ∷ kept p ss

pub kept-append :
    (p : ValidationPipeline) (xs ys : List StepName) → kept p (xs ++ ys) ≡ kept p xs ++ kept p ys
kept-append p [] ys = refl
kept-append p (x ∷ xs) ys = elim (Bool-cases (is_skipped p x)) [
  | inl gone ↦ rw gone (kept-append p xs ys)
  | inr here ↦ rw here (ap (λ l. x ∷ l) (kept-append p xs ys))
]

-- After the quality score, a dataset whose score is below 60 carries the mark of poor quality.
abbrev pub scored : {A : Type 0} → Dataset A → Option ℤ → Dataset A
scored d none = d
scored d (some (pos score)) = if ltb score 60 then record d { poor_quality = true } else d
scored d (some (negsuc score)) = record d { poor_quality = true }

abbrev pub marked : {A : Type 0} → StepName → Dataset A → Dataset A
marked quality_score d = scored d d.confidence_score
marked s d = d

module _ {A : Type 0} (p : ValidationPipeline) (steps : StepName → Dataset A → StepResult A) where
  -- The dataset after some steps that all go well: each that is not skipped is given what the one
  -- before it came back with.
  abbrev pub passed : List StepName → Dataset A → Dataset A
  passed [] d = d
  passed (s ∷ rest) d =
      if is_skipped p s then passed rest d else passed rest (marked s (steps s d).dataset)

  -- A run that a step ended, which was given the dataset `d`: the step was executed and refused it, and
  -- what it came back with is the result's; the steps that were completed are those that were before.
  pub record IsFailure (completed : List StepName) (s : StepName) (d : Dataset A)
      (r : PipelineResult A) : Type 0 where
    pub not_ok : r.is_ok ≡ false
    pub not_poor : r.poor_quality ≡ false
    pub step : r.step_failed ≡ some s
    pub executed : is_skipped p s ≡ false
    pub before : r.steps_completed ≡ completed
    pub refused : (steps s d).is_ok ≡ false
    pub dataset : r.dataset ≡ (steps s d).dataset
    pub incident : r.incident ≡ (steps s d).incident

  pub record IsSuppressed (s : StepName) (q : Progress A) (r : PipelineResult A) : Type 0 where
    pub same : r ≡ success q
    pub poor : q.poor_quality ≡ true
    pub last : is_deliver s ≡ true

  note_score-completed :
      (s : StepName) (q : Progress A) → (note_score s q).steps_completed ≡ q.steps_completed
  unfolding note_score apply_poor_quality_rule
  note_score-completed s q = ground arith

  note_score-dataset :
      (s : StepName) (q : Progress A) → (note_score s q).dataset ≡ marked s q.dataset
  unfolding note_score apply_poor_quality_rule
  note_score-dataset quality_score q = ground arith
  note_score-dataset s q = ground arith

  -- What one round leaves behind.
  abbrev pub After : StepName → Progress A → Result (PipelineResult A) (Progress A) → Type 0
  After s q (ok q') =
      (q'.steps_completed ≡ q.steps_completed ++ kept p (s ∷ []))
      × (q'.dataset ≡ passed (s ∷ []) q.dataset)
  After s q (err r) = IsFailure q.steps_completed s q.dataset r ⊎ IsSuppressed s q r

  record_step-After :
      (s : StepName) (q : Progress A)
      → is_skipped p s ≡ false
      → After s q (record_step s q (steps s q.dataset))
  unfolding record_step failure
  record_step-After s q here = elim (Bool-cases (steps s q.dataset).is_ok) [
    | inl fine ↦
        let q' : Progress A = record q {
          dataset = (steps s q.dataset).dataset;
          steps_completed = q.steps_completed ++ s ∷ [];
        } in
        rw (fine, here) (note_score-completed s q', note_score-dataset s q')
    | inr bad ↦ rw bad (
        inl (record {
          not_ok = refl;
          not_poor = refl;
          step = refl;
          executed = here;
          before = refl;
          refused = bad;
          dataset = refl;
          incident = refl;
        }))
  ]

  pub advance-After : (s : StepName) (q : Progress A) → After s q (advance p steps s q)
  unfolding advance
  advance-After s q = elim (Bool-cases (is_skipped p s)) [
    | inl gone ↦ rw (gone, gone) (sym (append-nil q.steps_completed), refl)
    | inr here ↦ elim (Bool-cases (is_deliver s && q.poor_quality)) [
      | inl held ↦
          rw (here, held) (inr (record { same = refl; poor = ground arith; last = ground arith }))
      | inr free ↦ rw (here, free) (record_step-After s q here)
    ]
  ]

  -- A failure of one of the steps of a list, after those before it were completed and `d` was passed
  -- through them.
  pub record IsFailureIn (completed : List StepName) (d : Dataset A) (l : List StepName)
      (r : PipelineResult A) : Type 0 where
    pub done : List StepName
    pub failed : StepName
    pub left : List StepName
    pub parts : l ≡ done ++ failed ∷ left
    pub failure : IsFailure (completed ++ kept p done) failed (passed done d) r

  -- What the rounds of a list of steps leave behind, if delivery is none of them.
  abbrev pub AfterAll : List StepName → Progress A → Result (PipelineResult A) (Progress A) → Type 0
  AfterAll l q (ok q') =
      (q'.steps_completed ≡ q.steps_completed ++ kept p l) × (q'.dataset ≡ passed l q.dataset)
  AfterAll l q (err r) = IsFailureIn q.steps_completed q.dataset l r

  shift-completed :
      (s : StepName) (rest : List StepName) (q q' : Progress A)
      → q'.steps_completed ≡ q.steps_completed ++ kept p (s ∷ [])
      → q'.steps_completed ++ kept p rest ≡ q.steps_completed ++ kept p (s ∷ rest)
  shift-completed s rest q q' e =
      ap (λ l. l ++ kept p rest) e
      ∙ append_assoc q.steps_completed (kept p (s ∷ [])) (kept p rest)
      ∙ ap (λ l. q.steps_completed ++ l) (sym (kept-append p (s ∷ []) rest))

  passed-cons :
      (s : StepName) (rest : List StepName) (d : Dataset A)
      → passed rest (passed (s ∷ []) d) ≡ passed (s ∷ rest) d
  passed-cons s rest d = elim (Bool-cases (is_skipped p s)) [
    | inl gone ↦ rw gone refl
    | inr here ↦ rw here refl
  ]

  shift-passed :
      (s : StepName) (rest : List StepName) (q q' : Progress A)
      → q'.dataset ≡ passed (s ∷ []) q.dataset
      → passed rest q'.dataset ≡ passed (s ∷ rest) q.dataset
  shift-passed s rest q q' e = ap (passed rest) e ∙ passed-cons s rest q.dataset

  shift-AfterAll :
      (s : StepName) (rest : List StepName) (q q' : Progress A)
      (m : Result (PipelineResult A) (Progress A))
      → After s q (ok q')
      → AfterAll rest q' m
      → AfterAll (s ∷ rest) q m
  shift-AfterAll s rest q q' (ok q'') (e, e') (h, h') =
      (h ∙ shift-completed s rest q q' e, h' ∙ shift-passed s rest q q' e')
  shift-AfterAll s rest q q' (err r) (e, e') h = record {
    done = s ∷ h.done;
    failed = h.failed;
    left = h.left;
    parts = ap (λ l. s ∷ l) h.parts;
    failure =
        subst (λ l. IsFailure l h.failed (passed (s ∷ h.done) q.dataset) r)
          (shift-completed s h.done q q' e)
          (subst (λ d. IsFailure (q'.steps_completed ++ kept p h.done) h.failed d r)
            (shift-passed s h.done q q' e') h.failure);
  }

  then-AfterAll :
      (s : StepName) (rest : List StepName) (q : Progress A)
      (m : Result (PipelineResult A) (Progress A))
      → is_deliver s ≡ false
      → After s q m
      → ((q' : Progress A) → AfterAll rest q' (run_steps p steps rest q'))
      → AfterAll (s ∷ rest) q (m >>= run_steps p steps rest)
  then-AfterAll s rest q (err r) front (inl f) h = record {
    done = [];
    failed = s;
    left = rest;
    parts = refl;
    failure = subst (λ l. IsFailure l s q.dataset r) (sym (append-nil q.steps_completed)) f;
  }
  then-AfterAll s rest q (err r) front (inr f) h = absurd (ground (arith, front, f.last))
  then-AfterAll s rest q (ok q') front a h =
      shift-AfterAll s rest q q' (run_steps p steps rest q') a (h q')

  pub run_steps-AfterAll :
      (l : List StepName) (q : Progress A)
      → All (λ s. is_deliver s ≡ false) l
      → AfterAll l q (run_steps p steps l q)
  unfolding run_steps
  run_steps-AfterAll [] q h = (sym (append-nil q.steps_completed), refl)
  run_steps-AfterAll (s ∷ rest) q h =
      then-AfterAll s rest q (advance p steps s q) h.0 (advance-After s q)
        (λ q'. run_steps-AfterAll rest q' h.1)
