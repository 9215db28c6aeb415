-- ===== src/Validators/Ohlcv/Correct.antt =====
-- The candle validator accepts exactly the price bars.
use data_service.Common.{
  String, Bool, true, false, ◌≡◌, ◌↔◌, refl, ◌&&◌, Option, none, some, List, [], ◌∷◌, ok, str_eq,
  arith, ◌⊎◌, inl, inr, Bool-cases, ap, ◌≢◌,
}
use data_service.Common.Float.{Floats}
use data_service.Validators.Ohlcv.{
  Violation, Value, Candle, Context, Incident, to_float, failed_checks, report, check_prices,
  validate_ohlcv_invariants,
}

module _ (f : Floats) where
  open f use {Carrier, origin, lt, lt_trans, lt_cut}

  -- A price bar: positive prices, with the open and the close between the low and the high.
  pub record IsBar (o h l c : Carrier) : Type 0 where
    pub open_positive : lt origin o ≡ true
    pub high_positive : lt origin h ≡ true
    pub low_positive : lt origin l ≡ true
    pub close_positive : lt origin c ≡ true
    pub open_le_high : lt h o ≡ false
    pub close_le_high : lt h c ≡ false
    pub low_le_open : lt o l ≡ false
    pub low_le_close : lt c l ≡ false

  abbrev pub IsVolume : Option Carrier → Type 0
  IsVolume none = Unit
  IsVolume (some v) = lt v origin ≡ false

  failed_checks-nil :
      (o h l c : Carrier) (v : Option Carrier)
      → failed_checks f o h l c v ≡ []
      → IsBar o h l c × IsVolume v
  unfolding failed_checks
  failed_checks-nil o h l c v e =
      ground (arith, lt_trans h o c, lt_cut h c o, lt_trans c o l, lt_cut c l o)

  failed_checks_of_bar :
      (o h l c : Carrier) (v : Option Carrier)
      → IsBar o h l c
      → IsVolume v
      → failed_checks f o h l c v ≡ []
  unfolding failed_checks
  failed_checks_of_bar o h l c v b volume = ground arith

  abbrev AreBar : (o h l c v : Option Carrier) → Type 0
  AreBar (some o) (some h) (some l) (some c) v = IsBar o h l c × IsVolume v
  AreBar o h l c v = ⊥

  -- The four prices can be read and form a price bar; a volume that can be read is not negative.
  abbrev pub ReadsAsBar : (String → Option Carrier) → Candle Carrier → Type 0
  ReadsAsBar parse b =
      AreBar (to_float f parse b.open_price) (to_float f parse b.high) (to_float f parse b.low)
        (to_float f parse b.close) (to_float f parse b.volume)

  -- The hard block of the three-minute interval.
  abbrev pub is_blocked : Context → Bool
  is_blocked ctx = ctx.is_indian_market && str_eq ctx.interval "3m"

  report-nil :
      (ctx : Context) (failed : List Violation) (rejected : List (String × Value Carrier))
      → report f ctx failed rejected ≡ none
      → failed ≡ []
  unfolding report
  report-nil ctx [] rejected e = refl
  report-nil ctx (x ∷ failed) rejected e = cc

  check_prices-none :
      (ctx : Context) (b : Candle Carrier) (o h l c v : Option Carrier)
      → check_prices f ctx b o h l c v ≡ none
      → AreBar o h l c v
  unfolding check_prices
  check_prices-none ctx b (some o) (some h) (some l) (some c) v e =
      failed_checks-nil o h l c v (report-nil ctx _ _ e)
  check_prices-none ctx b o h l c v e = cc

  check_prices_of_bar :
      (ctx : Context) (b : Candle Carrier) (o h l c v : Option Carrier)
      → AreBar o h l c v
      → check_prices f ctx b o h l c v ≡ none
  unfolding check_prices
  check_prices_of_bar ctx b (some o) (some h) (some l) (some c) v e =
      rw (failed_checks_of_bar o h l c v e.0 e.1)
  check_prices_of_bar ctx b o h l c v e = absurd e

  -- The incident that a rejection comes with.
  abbrev IsIncidentOf : Context → Option (Incident Carrier) → Type 0
  IsIncidentOf ctx r =
      (i : Incident Carrier) × (r ≡ some i)
      × (i.provider ≡ ctx.provider)
      × (i.instrument_id ≡ ctx.instrument_id)
      × (i.interval_str ≡ ctx.interval)
      × (i.failed_invariants ≢ [])

  report-incident :
      (ctx : Context) (failed : List Violation) (rejected : List (String × Value Carrier))
      → (report f ctx failed rejected ≡ none) ⊎ IsIncidentOf ctx (report f ctx failed rejected)
  unfolding report
  report-incident ctx [] rejected = inl refl
  report-incident ctx (x ∷ failed) rejected = inr (_, refl, refl, refl, refl, λ e. cc)

  check_prices-incident :
      (ctx : Context) (b : Candle Carrier) (o h l c v : Option Carrier)
      → (check_prices f ctx b o h l c v ≡ none) ⊎ IsIncidentOf ctx (check_prices f ctx b o h l c v)
  unfolding check_prices
  check_prices-incident ctx b (some o) (some h) (some l) (some c) v = report-incident ctx _ _
  check_prices-incident ctx b o h l c v = inr (_, refl, refl, refl, refl, λ e. cc)

  module _ (parse : String → Option Carrier) (ctx : Context) (b : Candle Carrier) where
    -- A candle passes exactly if it reads as a price bar and its interval is not blocked.
    pub validate-accepts_iff :
        (validate_ohlcv_invariants f parse ctx b ≡ ok none)
        ↔ ((is_blocked ctx ≡ false) × ReadsAsBar parse b)
    unfolding validate_ohlcv_invariants
    validate-accepts_iff = (
      λ e. elim (Bool-cases (is_blocked ctx)) [
        | inl blocked ↦ absurd (ground arith)
        | inr free ↦ (free, check_prices-none ctx b _ _ _ _ _ (ground arith))
      ],
      λ h. rw h.0 (ap ok (check_prices_of_bar ctx b _ _ _ _ _ h.1)),
    )

    -- A blocked interval raises before anything of the candle is read; any other candle that is no
    -- price bar comes back with an incident that names the provider, the instrument and the interval
    -- of the call and lists at least one violation.
    pub validate-rejects :
        ¬ ReadsAsBar parse b
        → is_blocked ctx ≡ false
        → (i : Incident Carrier) × (validate_ohlcv_invariants f parse ctx b ≡ ok (some i))
          × (i.provider ≡ ctx.provider)
          × (i.instrument_id ≡ ctx.instrument_id)
          × (i.interval_str ≡ ctx.interval)
          × (i.failed_invariants ≢ [])
    unfolding validate_ohlcv_invariants
    validate-rejects bad free = elim (check_prices-incident ctx b _ _ _ _ _) [
      | inl passes ↦ absurd (bad (check_prices-none ctx b _ _ _ _ _ passes))
      | inr (i, e, provider, instrument, interval, failed) ↦
          (i, rw free (ap ok e), provider, instrument, interval, failed)
    ]
