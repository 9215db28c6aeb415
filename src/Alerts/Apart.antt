-- ===== src/Alerts/Apart.antt =====
-- Two alerts for the same fault are fired apart.
use data_service.Common.{
  ℕ, ◌+◌, ◌*◌, ◌≤◌, ◌≡◌, refl, subst, String, true, false, List, [], ◌∷◌, ◌++◌, String_discrete,
  arith, Bool-cases, inl, inr, length, All, All-append, eq_iff,
}
use data_service.Common.Dict
use data_service.Quality.Score.{Grade}
use data_service.Alerts.{
  QualityAlert, QualityAlerter, Severity, suppresses, is_duplicate, new_alert, same_severity,
}

-- Two unresolved alerts for one symbol and severity were fired at least the window apart.
abbrev pub AreApart : ℕ → QualityAlert → QualityAlert → Type 0
AreApart window a b =
    a.resolved ≡ false
    → b.resolved ≡ false
    → a.symbol ≡ b.symbol
    → a.severity ≡ b.severity
    → a.fired_at + window * 1000 ≤ b.fired_at

abbrev pub Entries : Type 0
Entries = List (String × QualityAlert)

abbrev pub IsApart : ℕ → Entries → Type 0
IsApart window [] = Unit
IsApart window ((key, a) ∷ rest) =
    All (λ (e : String × QualityAlert). AreApart window a e.1) rest × IsApart window rest

pub record IsValid (s : QualityAlerter) : Type 0 where
  pub room : 1 ≤ s.max_history
  pub bounded : length s.alerts ≤ s.max_history
  pub distinct : Dict.IsDistinct String_discrete s.alerts
  pub apart : IsApart s.dedup_window_sec s.alerts

same_severity_refl : (a : Severity) → same_severity a a ≡ true
unfolding same_severity
same_severity_refl Severity.critical = refl
same_severity_refl Severity.warning = refl
same_severity_refl Severity.info = refl

not_suppressed :
    (symbol alert_id : String) (severity : Severity) (grade : Grade) (window now score : ℕ)
    (a : QualityAlert)
    → suppresses symbol severity window now a ≡ false
    → AreApart window a (new_alert alert_id symbol severity grade score now)
unfolding suppresses new_alert
not_suppressed symbol alert_id severity grade window now score a h live fresh sym_eq sev_eq =
    let same_symbol = (eq_iff a.symbol symbol).1 sym_eq in
    let same_sev : same_severity a.severity severity ≡ true =
      subst (λ s. same_severity a.severity s ≡ true) sev_eq (same_severity_refl a.severity) in
    ground arith

pub not_duplicate :
    (symbol alert_id : String) (severity : Severity) (grade : Grade) (window now score : ℕ)
    (d : Entries)
    → is_duplicate symbol severity window now d ≡ false
    → All
        (λ (e : String × QualityAlert).
          AreApart window e.1 (new_alert alert_id symbol severity grade score now))
        d
unfolding is_duplicate
not_duplicate symbol alert_id severity grade window now score [] h = tt
not_duplicate symbol alert_id severity grade window now score ((key, a) ∷ d) h =
    elim (Bool-cases (suppresses symbol severity window now a)) [
      | inl e ↦ absurd (ground arith)
      | inr e ↦ (
        not_suppressed symbol alert_id severity grade window now score a e,
        not_duplicate symbol alert_id severity grade window now score d (ground arith),
      )
    ]

pub snoc-IsApart :
    (window : ℕ) (e : String × QualityAlert) (d : Entries)
    → All (λ (x : String × QualityAlert). AreApart window x.1 e.1) d
    → IsApart window d
    → IsApart window (d ++ e ∷ [])
snoc-IsApart window e [] h v = (tt, tt)
snoc-IsApart window e ((key, a) ∷ d) h v =
    (All-append _ d (e ∷ []) v.0 (h.0, tt), snoc-IsApart window e d h.1 v.1)
