-- ===== src/MarketSession/Scan.antt =====
-- The search for the next change of phase, a minute at a time.
use data_service.Common.{
  ℕ, zero, suc, ◌+◌, ◌*◌, ◌≤◌, ◌<◌, ◌≡◌, ◌≢◌, refl, sym, ◌∙◌, ap, subst, true, false, Bool-cases,
  inl, inr, arith,
}
use data_service.MarketSession.{
  SessionPhase, MarketSessionEngine, minute, get_current_phase, snap_to_boundary, scan, is_same,
  max_steps, get_next_phase_change,
}
use data_service.MarketSession.Changes.{
  IsNextChange, phase_cross, steady_minute, earlier-IsNextChange,
}

is_same-eq : (p q : SessionPhase) → is_same p q ≡ true → p ≡ q
is_same-eq p q h = ground arith

is_same-ne : (p q : SessionPhase) → is_same p q ≡ false → p ≢ q
is_same-ne p q h = λ r. ground arith

-- A candidate that is not the first is a later one of the minute after.
step_back :
    (u j : ℕ)
    → (u + minute + j * minute ≢ u + minute)
    → (i : ℕ) × (suc i ≡ j) × (u + minute + j * minute ≡ u + minute + minute + i * minute)
step_back u zero n = absurd (n (omega arith))
step_back u (suc i) n = (i, refl, omega arith)

module _ (e : MarketSessionEngine) where
  scan_again :
      (current : SessionPhase) (steps candidate : ℕ)
      → is_same (get_current_phase e candidate) current ≡ true
      → scan e current (suc steps) candidate ≡ scan e current steps (candidate + minute)
  unfolding scan
  scan_again current steps candidate h = rw (h, scan)

  scan_found :
      (current : SessionPhase) (steps candidate : ℕ)
      → is_same (get_current_phase e candidate) current ≡ false
      → scan e current (suc steps) candidate ≡ snap_to_boundary e candidate current
  unfolding scan
  scan_found current steps candidate h = rw (h, scan)

  scan-IsNextChange :
      (t u steps j : ℕ)
      → ((x : ℕ) → t ≤ x → x ≤ u → get_current_phase e x ≡ get_current_phase e t)
      → t ≤ u
      → j < steps
      → get_current_phase e (u + minute + j * minute) ≢ get_current_phase e t
      → IsNextChange e t (scan e (get_current_phase e t) steps (u + minute))
  scan-IsNextChange t u zero j steady le within n = absurd (omega arith)
  scan-IsNextChange t u (suc steps) j steady le within n =
      elim (Bool-cases (is_same (get_current_phase e (u + minute)) (get_current_phase e t))) [
        | inl same ↦
            let equal = is_same-eq _ _ same in
            let (i, less, later) = step_back u j (λ z. n (ap (get_current_phase e) z ∙ equal)) in
            subst (IsNextChange e t)
              (sym (scan_again (get_current_phase e t) steps (u + minute) same))
              (scan-IsNextChange t (u + minute) steps i (steady_minute e t u steady le equal)
                (omega arith) (omega (arith, less)) (λ q. n (ap (get_current_phase e) later ∙ q)))
        | inr other ↦
            subst (IsNextChange e t)
              (sym (scan_found (get_current_phase e t) steps (u + minute) other))
              (earlier-IsNextChange e t u _ steady le (
                subst (λ ph. IsNextChange e u (snap_to_boundary e (u + minute) ph))
                  (steady u le (omega arith))
                  (phase_cross e u (λ q. is_same-ne _ _ other (q ∙ steady u le (omega arith))))))
      ]

  -- If the phase at one of the next eight days' minutes differs from the phase at `t`, then
  -- `get_next_phase_change` is the first instant after `t`, to the microsecond, at which the phase
  -- differs from that at `t`.
  pub get_next_phase_change-IsNextChange :
      (t j : ℕ)
      → j < max_steps
      → get_current_phase e (t + minute + j * minute) ≢ get_current_phase e t
      → IsNextChange e t (get_next_phase_change e t)
  unfolding get_next_phase_change
  get_next_phase_change-IsNextChange t j within n =
      scan-IsNextChange t t max_steps j (λ x lower upper. ap (get_current_phase e) (omega arith))
        (omega arith) within n
