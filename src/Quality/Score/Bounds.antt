-- ===== src/Quality/Score/Bounds.antt =====
-- The confidence score: its range, what raises and lowers it, and its grade.
use data_service.Common.{
  refl, ℕ, ◌≤◌, ◌≡◌, ◌≢◌, ◌↔◌, Bool, true, false, ok, arith, if◌then◌else◌, Result, err, ◌>>=◌,
}
use data_service.Common.Int.{ℤ, pos, negsuc, ◌+ℤ◌, ◌≤ℤ◌, +ℤ_parts}
use data_service.Common.Value.{Numbers, PyError}
use data_service.Quality.Score.{
  total_score, compute_confidence_score, penalise, clamp, grade_score, blocked,
  is_signal_engine_allowed,
}

clamp-le : (z : ℤ) → clamp z ≤ 95
unfolding clamp
clamp-le z = omega arith

clamp_mono : (y z : ℤ) → y ≤ℤ z → clamp y ≤ clamp z
unfolding clamp
clamp_mono y z h = ground arith

penalise-clamp_mono : (y z : ℤ) → y ≤ℤ z → clamp (penalise y) ≤ clamp (penalise z)
unfolding clamp penalise
penalise-clamp_mono (pos m) (pos n) h = ground arith
penalise-clamp_mono (pos m) (negsuc n) h = ground arith
penalise-clamp_mono (negsuc m) (pos n) h = ground arith
penalise-clamp_mono (negsuc m) (negsuc n) h = ground arith

penalise-clamp-le : (z : ℤ) → clamp (penalise z) ≤ clamp z
unfolding clamp penalise
penalise-clamp-le (pos n) = ground arith
penalise-clamp-le (negsuc n) = ground arith

-- One set of evidence is no better than another: no component is higher, and no test passes that
-- fails in the other.
pub record Evidence : Type 0 where
  pub freshness : ℤ
  pub completeness : ℤ
  pub provider_health : ℤ
  pub timestamp_valid : Bool
  pub agreement : ℤ
  pub sequence_integrity : Bool

abbrev pub score_of : Evidence → ℕ
score_of e =
    total_score e.freshness e.completeness e.provider_health e.timestamp_valid e.agreement
      e.sequence_integrity

pub record IsNoBetter (a b : Evidence) : Type 0 where
  pub freshness_le : a.freshness ≤ℤ b.freshness
  pub completeness_le : a.completeness ≤ℤ b.completeness
  pub provider_health_le : a.provider_health ≤ℤ b.provider_health
  pub timestamp_le : a.timestamp_valid ≡ true → b.timestamp_valid ≡ true
  pub agreement_le : a.agreement ≤ℤ b.agreement
  pub integrity_le : a.sequence_integrity ≡ true → b.sequence_integrity ≡ true

sum_of : Evidence → ℤ
sum_of e =
    e.freshness
    +ℤ e.completeness
    +ℤ e.provider_health
    +ℤ (if e.timestamp_valid then pos 10 else pos 0)
    +ℤ e.agreement

timestamp_mono :
    (s t : Bool)
    → (s ≡ true → t ≡ true)
    → (if s then pos 10 else pos 0) ≤ℤ (if t then pos 10 else pos 0)
timestamp_mono true true h = omega arith
timestamp_mono true false h = cc (h refl)
timestamp_mono false true h = omega arith
timestamp_mono false false h = omega arith

+ℤ_mono : (a b c d : ℤ) → a ≤ℤ b → c ≤ℤ d → a +ℤ c ≤ℤ b +ℤ d
+ℤ_mono a b c d h k = omega (arith, +ℤ_parts)

sum_of_mono : (a b : Evidence) → IsNoBetter a b → sum_of a ≤ℤ sum_of b
unfolding sum_of
sum_of_mono a b h =
    +ℤ_mono _ _ _ _
      (+ℤ_mono _ _ _ _
        (+ℤ_mono _ _ _ _ (+ℤ_mono _ _ _ _ h.freshness_le h.completeness_le) h.provider_health_le)
        (timestamp_mono _ _ h.timestamp_le))
      h.agreement_le

penalty_mono :
    (s t : Bool) (y z : ℤ)
    → (s ≡ true → t ≡ true)
    → y ≤ℤ z
    → clamp (if s then y else penalise y) ≤ clamp (if t then z else penalise z)
penalty_mono true true y z h k = clamp_mono y z k
penalty_mono true false y z h k = cc (h refl)
penalty_mono false true y z h k = omega (arith, penalise-clamp-le y, clamp_mono y z k)
penalty_mono false false y z h k = penalise-clamp_mono y z k

-- Weaker evidence never scores higher: if no component of `a` is above that of `b`, and the
-- timestamp and the sequence of `a` are sound only where those of `b` are, then the score of `a` is
-- at most the score of `b`, the penalty for a broken sequence included.
pub total_score_mono : (a b : Evidence) → IsNoBetter a b → score_of a ≤ score_of b
unfolding total_score sum_of
total_score_mono a b h =
    penalty_mono a.sequence_integrity b.sequence_integrity (sum_of a) (sum_of b) h.integrity_le
      (sum_of_mono a b h)

total_score-le :
    (f c p : ℤ) (valid : Bool) (agreement : ℤ) (integrity : Bool)
    → total_score f c p valid agreement integrity ≤ 95
unfolding total_score
total_score-le f c p valid agreement integrity =
    let sum = f +ℤ c +ℤ p +ℤ (if valid then pos 10 else pos 0) +ℤ agreement in
    clamp-le (if integrity then sum else penalise sum)

bind_le :
    (m : Result PyError ℤ) (k : ℤ → ℕ)
    → ((z : ℤ) → k z ≤ 95)
    → ((score : ℕ) → (m >>= λ z. ok (k z)) ≡ ok score → score ≤ 95)
      × ((e : PyError) → (m ≡ err e) ↔ ((m >>= λ z. ok (k z)) ≡ err e))
bind_le (ok z) k h = (λ score e. ground (arith, h z), λ e. (λ x. cc, λ x. cc))
bind_le (err x) k h = (λ score e. cc, λ e. (λ y. cc, λ y. cc))

-- Every score that is computed lies in 0..95, whatever the components are; and an error is raised
-- exactly when cutting off ten times the agreement to a whole number raises it.
pub compute_confidence_score-le :
    (n : Numbers) (f c p : ℤ) (valid : Bool) (agreement : n.floats.Carrier) (integrity : Bool)
    → ((score : ℕ)
        → compute_confidence_score n f c p valid agreement integrity ≡ ok score
        → score ≤ 95)
      × ((e : PyError)
          → (n.int_of_float (n.mul agreement (n.of_ℕ 10)) ≡ err e)
            ↔ (compute_confidence_score n f c p valid agreement integrity ≡ err e))
unfolding compute_confidence_score
compute_confidence_score-le n f c p valid agreement integrity =
    bind_le (n.int_of_float (n.mul agreement (n.of_ℕ 10)))
      (λ tenths. total_score f c p valid tenths integrity)
      (λ tenths. total_score-le f c p valid tenths integrity)

-- The signal engine may use a score exactly if its grade is not BLOCKED.
pub is_signal_engine_allowed-grade :
    (score : ℕ) → (is_signal_engine_allowed score ≡ true) ↔ (grade_score score ≢ blocked)
unfolding is_signal_engine_allowed grade_score
is_signal_engine_allowed-grade score = (λ h e. ground arith, λ h. ground arith)
