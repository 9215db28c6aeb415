-- ===== src/MarketSession/Changes.antt =====
-- A change of phase within a minute, as an instant.
use data_service.Common.{
  ℕ, ◌+◌, ◌-◌, ◌≤◌, ◌<◌, ◌≡◌, ◌≢◌, sym, ◌∙◌, ap, subst, Bool-cases, inl, inr, ltb, leb, arith, some,
}
use mathlib.Core.Path.{ap₂}
use data_service.MarketSession.{
  closed, MarketSessionEngine, minute, day, ist_date, ist_time, get_current_phase, local_phase,
  is_half_day, end_of, snap_to_boundary, snap_to,
}
use data_service.MarketSession.Phases.{IsCrossed, local_flat, local_cross, local_late, local_early}

date_same : (t k : ℕ) → ist_time t + k < day → ist_date (t + k) ≡ ist_date t
unfolding ist_date ist_time
date_same t k h = omega arith

time_same : (t k : ℕ) → ist_time t + k < day → ist_time (t + k) ≡ ist_time t + k
unfolding ist_time
time_same t k h = omega arith

-- Past midnight by less than a minute.
time_next : (t k : ℕ) → k ≤ minute → day ≤ ist_time t + k → ist_time (t + k) < minute
unfolding ist_time
time_next t k le h = omega arith

-- A boundary that was crossed within the last minute is found on the candidate's own date.
snap_to-value :
    (t b : ℕ)
    → ist_time t + minute < day
    → ist_time t < b
    → b ≤ ist_time t + minute
    → snap_to (t + minute) (some b) ≡ t + (b - ist_time t)
unfolding snap_to ist_date ist_time
snap_to-value t b h after within = ground arith

module _ (e : MarketSessionEngine) where
  phase_same :
      (t k : ℕ)
      → ist_time t + k < day
      → get_current_phase e (t + k) ≡ local_phase e (ist_date t) (ist_time t + k)
  unfolding get_current_phase
  phase_same t k h = ap₂ (local_phase e) (date_same t k h) (time_same t k h)

  -- Around midnight the market is closed.
  phase_midnight :
      (t k m : ℕ) → k ≤ m → m ≤ minute → day ≤ ist_time t + m → get_current_phase e (t + k) ≡ closed
  unfolding get_current_phase
  phase_midnight t k m hk hm h = elim (Bool-cases (ltb (ist_time t + k) day)) [
    | inl same ↦
        phase_same t k (ground arith) ∙ local_late e (ist_date t) (ist_time t + k) (omega arith)
    | inr next ↦
        local_early e (ist_date (t + k)) (ist_time (t + k))
          (omega (arith, time_next t k (omega arith) (ground arith)))
  ]

  pub phase_zero : (t : ℕ) → get_current_phase e (t + 0) ≡ get_current_phase e t
  phase_zero t = ap (get_current_phase e) (omega arith)

  phase_flat :
      (t k m : ℕ)
      → k ≤ m
      → m ≤ minute
      → get_current_phase e (t + m) ≡ get_current_phase e t
      → get_current_phase e (t + k) ≡ get_current_phase e t
  unfolding get_current_phase
  phase_flat t k m hk hm h = elim (Bool-cases (ltb (ist_time t + m) day)) [
    | inl same ↦
        phase_same t k (ground arith)
        ∙ local_flat e (ist_date t) (ist_time t) k m hk hm (sym (phase_same t m (ground arith)) ∙ h)
    | inr next ↦
        phase_midnight t k m hk hm (ground arith)
        ∙ sym (phase_midnight t 0 m (omega arith) hm (ground arith))
        ∙ phase_zero t
  ]

  -- The instant `n` is the first after `t` at which the phase is another.
  pub record IsNextChange (t n : ℕ) : Type 0 where
    pub after : t < n
    pub changed : get_current_phase e n ≢ get_current_phase e t
    pub before : (x : ℕ) → t ≤ x → x < n → get_current_phase e x ≡ get_current_phase e t

  next-IsNextChange :
      (t b : ℕ)
      → ist_time t + minute < day
      → IsCrossed (local_phase e (ist_date t)) (ist_time t) b
      → IsNextChange t (t + (b - ist_time t))
  unfolding get_current_phase
  next-IsNextChange t b h c = record {
    after = omega (arith, c.after);
    changed = λ q.
        let back : b ≡ ist_time t + (b - ist_time t) = omega (arith, c.after) in
        c.changed (
          ap (local_phase e (ist_date t)) back
          ∙ sym (phase_same t (b - ist_time t) (omega (arith, c.within)))
          ∙ q);
    before = λ x le lt.
        let same : t + (x - t) ≡ x = omega arith in
        ap (get_current_phase e) (sym same)
        ∙ phase_same t (x - t) (omega (arith, c.within))
        ∙ c.before (ist_time t + (x - t)) (omega arith) (omega (arith, c.after));
  }

  pub phase_cross :
      (t : ℕ)
      → get_current_phase e (t + minute) ≢ get_current_phase e t
      → IsNextChange t (snap_to_boundary e (t + minute) (get_current_phase e t))
  unfolding snap_to_boundary get_current_phase
  phase_cross t n = elim (Bool-cases (ltb (ist_time t + minute) day)) [
    | inr next ↦ absurd (
        n (
          phase_midnight t minute minute (omega arith) (omega arith) (ground arith)
          ∙ sym (phase_midnight t 0 minute (omega arith) (omega arith) (ground arith))
          ∙ phase_zero t))
    | inl same ↦
        let inside : ist_time t + minute < day = ground arith in
        let (b, boundary, c) =
          local_cross e (ist_date t) (ist_time t) (λ q. n (phase_same t minute inside ∙ q)) in
        let found =
          ap (λ d. end_of (is_half_day e d) (get_current_phase e t)) (date_same t minute inside)
          ∙ boundary in
        subst (IsNextChange t)
          (sym (ap (snap_to (t + minute)) found ∙ snap_to-value t b inside c.after c.within))
          (next-IsNextChange t b inside c)
  ]

  pub steady_minute :
      (t u : ℕ)
      → ((x : ℕ) → t ≤ x → x ≤ u → get_current_phase e x ≡ get_current_phase e t)
      → t ≤ u
      → get_current_phase e (u + minute) ≡ get_current_phase e t
      → (x : ℕ) → t ≤ x
      → x ≤ u + minute
      → get_current_phase e x ≡ get_current_phase e t
  steady_minute t u steady le same x lower upper = elim (Bool-cases (leb x u)) [
    | inl early ↦ steady x lower (ground arith)
    | inr late ↦
        let there : u + (x - u) ≡ x = ground arith in
        let here = steady u le (omega arith) in
        ap (get_current_phase e) (sym there)
        ∙ phase_flat u (x - u) minute (ground arith) (omega arith) (same ∙ sym here)
        ∙ here
  ]

  pub earlier-IsNextChange :
      (t u n : ℕ)
      → ((x : ℕ) → t ≤ x → x ≤ u → get_current_phase e x ≡ get_current_phase e t)
      → t ≤ u
      → IsNextChange u n
      → IsNextChange t n
  earlier-IsNextChange t u n steady le h =
      let here = steady u le (omega arith) in
      record {
        after = omega (arith, h.after);
        changed = λ q. h.changed (q ∙ sym here);
        before = λ x lower upper. elim (Bool-cases (leb x u)) [
          | inl early ↦ steady x lower (ground arith)
          | inr late ↦ h.before x (ground arith) upper ∙ here
        ];
      }
