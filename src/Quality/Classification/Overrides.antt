-- ===== src/Quality/Classification/Overrides.antt =====
-- A strategy can tighten the gate and never relax it.
use data_service.Common.{
  subst, ap, ◌∙◌, ℕ, ◌≤◌, ◌≡◌, ◌⊎◌, refl, true, false, not, ◌&&◌, some, List, [], ◌∷◌, ◌++◌, leb,
  ltb, if◌then◌else◌, ok, is_empty, arith, Bool-cases, inl, inr, >>=-eq-ok, append-nil,
}
use data_service.Common.Int.{ℤ}
use data_service.Common.Value.{Numbers}
use data_service.Quality.Score.{grade_score}
use data_service.Quality.Gate.{GateResult, check, evaluate, DataQualityGate}
use data_service.Quality.Consistency.{Data}
use data_service.Quality.Gate.Sound.{evaluate-reasons}
use data_service.Quality.Classification.{
  Texts, StrategyQualityProfile, QualityClassification, classify_quality, apply_strategy_overrides,
  freshness_failed, override, extra_remarks, any, mentions_stale, Remark,
}

is_nil-cases : {A : Type 0} (l : List A) → (l ≡ []) ⊎ (is_empty l ≡ false)
is_nil-cases [] = inl refl
is_nil-cases (x ∷ l) = inr refl

module _ {A : Type 0} (texts : Texts A) where
  classify-lem :
      (score : ℕ) (r : GateResult A) (c : QualityClassification A)
      → classify_quality texts score r ≡ ok c
      → (c.signal_engine_allowed ≡ (leb 30 score && r.passed))
        × (c.score ≡ score)
        × (c.grade ≡ grade_score score)
        × (score ≤ 95)
  unfolding classify_quality
  classify-lem score r c h = (ground arith, ground arith, ground arith, ground arith)

  extra_remarks-nil :
      (score : ℕ) (r : GateResult A) (profile : StrategyQualityProfile)
      → extra_remarks texts score r profile ≡ []
      → (profile.require_fresh_data && freshness_failed texts r) ≡ false
  unfolding extra_remarks
  extra_remarks-nil score r profile h =
      elim (Bool-cases (profile.require_fresh_data && freshness_failed texts r)) [
        | inl e ↦ absurd (ground arith)
        | inr e ↦ e
      ]

  override-lem :
      (r : GateResult A) (profile : StrategyQualityProfile) (base c : QualityClassification A)
      → override texts r profile base ≡ ok c
      → (c.signal_engine_allowed ≡ (
          base.signal_engine_allowed
          && not (profile.require_fresh_data && freshness_failed texts r)))
        × (c.score ≡ base.score)
        × (c.grade ≡ base.grade)
        × (c.reasons ≡ base.reasons ++ extra_remarks texts base.score r profile)
  unfolding override
  override-lem r profile base c h = elim (is_nil-cases (extra_remarks texts base.score r profile)) [
    | inl e ↦ ground (arith, append-nil base.reasons, extra_remarks-nil base.score r profile)
    | inr e ↦ ground arith
  ]

  -- What the overrides come from: a classification, which the floor or the strategy decides on.
  apply-eq-ok :
      (score : ℕ) (r : GateResult A) (profile : StrategyQualityProfile)
      (base c : QualityClassification A)
      → classify_quality texts score r ≡ ok base
      → apply_strategy_overrides texts score r profile ≡ ok c
      → (if ltb score 30 then ok base else override texts r profile base) ≡ ok c
  unfolding apply_strategy_overrides
  apply-eq-ok score r profile base c p h = rw p at h

  -- A strategy never relaxes the gate: on a score and a gate result that are classified, its overrides
  -- let the signal engine through exactly if the classification does and the strategy does not
  -- require fresh data that the gate found stale; they keep the score and the grade, and every
  -- reason of the classification. A score below 30 is never let through.
  pub apply-never_relaxes :
      (score : ℕ) (r : GateResult A) (profile : StrategyQualityProfile)
      (base c : QualityClassification A)
      → classify_quality texts score r ≡ ok base
      → apply_strategy_overrides texts score r profile ≡ ok c
      → (c.signal_engine_allowed ≡ (
          base.signal_engine_allowed
          && not (profile.require_fresh_data && freshness_failed texts r)))
        × (c.score ≡ base.score)
        × (c.grade ≡ base.grade)
        × (extra : List (Remark A)) × (c.reasons ≡ base.reasons ++ extra)
        × ((30 ≤ score) ⊎ (c.signal_engine_allowed ≡ false))
  apply-never_relaxes score r profile base c p h =
      let (allowed, scored, graded, in_range) = classify-lem score r base p in
      elim (Bool-cases (ltb score 30)) [
        | inl floor ↦
            let same = rw floor at (apply-eq-ok score r profile base c p h) in
            (
              ground arith,
              ground arith,
              ground arith,
              [],
              ground (arith, append-nil base.reasons),
              inr (ground arith),
            )
        | inr above ↦
            let (a, s, g, e) =
              override-lem r profile base c
                (rw above at (apply-eq-ok score r profile base c p h)) in
            (a, s, g, extra_remarks texts base.score r profile, e, inl (ground arith))
      ]

module _ (n : Numbers) (texts : Texts n.floats.Carrier) where
  open n use {floats}

  any-nil : any (mentions_stale texts) [] ≡ false
  unfolding any
  any-nil = refl

  abbrev result_of : DataQualityGate floats.Carrier → GateResult floats.Carrier
  result_of gate = record {
    passed = gate.signal_engine_allowed;
    failed_conditions = gate.block_reasons;
    score = gate.confidence_score;
    gate = some gate;
  }

  fresh-result :
      (gate : DataQualityGate floats.Carrier)
      → gate.data_fresh ≡ true
      → gate.block_reasons ≡ []
      → freshness_failed texts (result_of gate) ≡ false
  unfolding freshness_failed
  fresh-result gate fresh none_left = rw (fresh, none_left) any-nil

  passed-freshness :
      (now later : ℤ) (least : floats.Carrier) (d : Data n) (r : GateResult floats.Carrier)
      → check n now later least d ≡ ok r
      → r.passed ≡ true
      → freshness_failed texts r ≡ false
  unfolding check freshness_failed
  passed-freshness now later least d r h passed =
      let (gate, p, done) =
        >>=-eq-ok (evaluate n now later least d) (λ gate. ok (result_of gate)) h in
      let same : result_of gate ≡ r = cc in
      let (reasons, conditions) = evaluate-reasons n now later least d gate p in
      let allowed : gate.signal_engine_allowed ≡ true =
        ap (λ (x : GateResult floats.Carrier). x.passed) same ∙ passed in
      subst (λ x. freshness_failed texts x ≡ false) same
        (fresh-result gate (conditions.0 allowed).0 (reasons.0 allowed))

  -- For a result of the gate itself, no strategy changes what `classify_quality` allows: if the gate
  -- passed then its data were fresh, and if it did not then nothing is allowed. So a strategy that does
  -- not require fresh data is let through no stale data.
  pub apply-check :
      (now later : ℤ) (least : floats.Carrier) (d : Data n) (r : GateResult floats.Carrier)
      (score : ℕ) (profile : StrategyQualityProfile) (base c : QualityClassification floats.Carrier)
      → check n now later least d ≡ ok r
      → classify_quality texts score r ≡ ok base
      → apply_strategy_overrides texts score r profile ≡ ok c
      → (c.signal_engine_allowed ≡ base.signal_engine_allowed)
        × ((base.signal_engine_allowed ≡ false) ⊎ (freshness_failed texts r ≡ false))
  apply-check now later least d r score profile base c h p q =
      let (allowed, scored, graded, in_range) = classify-lem texts score r base p in
      let (a, s, g, extra, e, floor) = apply-never_relaxes texts score r profile base c p q in
      elim (Bool-cases r.passed) [
        | inl yes_passed ↦
            let fresh = passed-freshness now later least d r h yes_passed in
            (ground arith, inr fresh)
        | inr refused ↦ (ground arith, inl (ground arith))
      ]
