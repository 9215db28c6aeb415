-- ===== src/Reconciliation/OpenInterest/Supplied.antt =====
-- Open interest is never made up, and blocked data are not preferred.
use data_service.Common.{
  ◌≡◌, ◌≢◌, ◌↔◌, ◌⊎◌, inl, inr, refl, ap, sym, String, true, false, ◌&&◌, Option, none, some, arith,
  Bool-cases,
}
use data_service.Common.Int.{ℤ, pos, negsuc}
use data_service.Common.Value.{Numbers}
use data_service.Reconciliation.OpenInterest.{
  Side, provider_a, provider_b, reconcile_oi, compare_oi, is_blocked, is_zero,
}

-- What a provider supplied.
abbrev pub of_side : Option Side → Option ℤ → Option ℤ → Option ℤ
of_side none a b = none
of_side (some provider_a) a b = a
of_side (some provider_b) a b = b

module _ (n : Numbers) (round4 : n.floats.Carrier → n.floats.Carrier) where
  zero_only : (z : ℤ) → is_zero z ≡ true → z ≡ pos 0
  unfolding is_zero
  zero_only (pos k) h = ground arith
  zero_only (negsuc k) h = ground arith

  both_zero : (a b : ℤ) → (is_zero a && is_zero b) ≡ true → (a ≡ pos 0) × (b ≡ pos 0)
  both_zero a b h = (zero_only a (ground arith), zero_only b (ground arith))

  compare_oi-supplied :
      (a b : ℤ) (status : String)
      → let r = compare_oi n round4 a status b in
        (r.canonical_oi ≡ of_side r.canonical_provider (some a) (some b))
        × (r.canonical_oi ≢ none)
        × ((is_blocked status ≡ false)
            ⊎ ((r.canonical_provider ≢ some provider_a)
                ⊎ ((some a ≡ some (pos 0)) × (some b ≡ some (pos 0)))))
  unfolding compare_oi
  compare_oi-supplied a b status = elim (Bool-cases (is_zero a && is_zero b)) [
    | inl zeros ↦
        let (p, q) = both_zero a b zeros in
        rw zeros (ap some (sym p), (λ h. cc), inr (inr (ap some p, ap some q)))
    | inr some_open ↦ elim (Bool-cases (is_blocked status)) [
      | inl blocked ↦ rw (some_open, blocked) (refl, (λ h. cc), inr (inl (λ k. cc)))
      | inr free ↦ rw (some_open, free) (refl, (λ h. cc), inl refl)
    ]
  ]

  -- The canonical open interest is exactly what the canonical provider supplied; it is missing exactly
  -- if neither supplied any, so that a missing value never becomes 0; and where both supplied one,
  -- that of a provider A that is marked as blocked is taken only if both are 0.
  pub reconcile_oi-supplied :
      (a b : Option ℤ) (a_status b_status : String)
      → let r = reconcile_oi n round4 a a_status b b_status in
        (r.canonical_oi ≡ of_side r.canonical_provider a b)
        × ((r.canonical_oi ≡ none) ↔ ((a ≡ none) × (b ≡ none)))
        × ((b ≡ none)
            ⊎ ((is_blocked a_status ≡ false)
                ⊎ ((r.canonical_provider ≢ some provider_a)
                    ⊎ ((a ≡ some (pos 0)) × (b ≡ some (pos 0))))))
  unfolding reconcile_oi
  reconcile_oi-supplied none none s t = (refl, ((λ h. (refl, refl)), λ h. refl), inl refl)
  reconcile_oi-supplied none (some b) s t = (refl, ((λ h. cc), λ h. cc), inr (inr (inl (λ k. cc))))
  reconcile_oi-supplied (some a) none s t = (refl, ((λ h. cc), λ h. cc), inl refl)
  reconcile_oi-supplied (some a) (some b) s t =
      let (supplied, present, blocked) = compare_oi-supplied a b s in
      (supplied, ((λ h. absurd (present h)), λ h. cc), inr blocked)
