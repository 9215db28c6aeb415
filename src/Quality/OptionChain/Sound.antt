-- ===== src/Quality/OptionChain/Sound.antt =====
-- Which rows of an option chain are valid.
use data_service.Common.{
  ℕ, ◌≡◌, ◌↔◌, ◌≤◌, ◌⊎◌, inl, inr, refl, String, Bool, true, false, not, ◌&&◌, Option, none, some,
  List, [], ◌∷◌, ◌++◌, arith, is_empty, Bool-cases,
}
use data_service.Common.Value.{Numbers}
use data_service.Common.Case.{codes, upper, same_codes}
use data_service.Quality.Consistency.{when}
use data_service.Quality.OptionChain.{
  invalid_option_type, wide_spread, invalid_strike, invalid_ltp, negative_oi, negative_volume,
  OptionChainRecord, validate_option_chain_record, issues_of, passes_validators, spread_percent,
  iv_issues, quote_issues, spread_issues, expiry_issues, is_option_type, negative, Issue,
  model_validate, report_on, positive,
}

module _ (n : Numbers) where
  open n use {floats}

  -- A value that may be missing is not below 0.
  abbrev pub IsNotNegative : Option floats.Carrier → Type 0
  IsNotNegative none = Unit
  IsNotNegative (some x) = floats.lt x floats.origin ≡ false

  abbrev pub IsVolatility : Option floats.Carrier → Type 0
  IsVolatility none = Unit
  IsVolatility (some x) = (n.le x floats.origin ≡ false) × (floats.lt (n.of_ℕ 500) x ≡ false)

  abbrev pub IsQuote : Option floats.Carrier → Option floats.Carrier → Type 0
  IsQuote (some bid) (some ask) =
      (floats.lt bid floats.origin ≡ false) × (floats.lt ask bid ≡ false)
  IsQuote bid ask = Unit

  -- A spread between positive prices is not half of the last price or more.
  abbrev pub IsNarrow : (bid ask ltp : Option floats.Carrier) → Type 0
  IsNarrow (some bid) (some ask) (some ltp) =
      (floats.lt floats.origin bid ≡ false)
      ⊎ ((floats.lt floats.origin ask ≡ false)
          ⊎ ((floats.lt floats.origin ltp ≡ false)
              ⊎ (n.le (n.of_ℕ 50) (spread_percent n bid ask ltp) ≡ false)))
  IsNarrow bid ask ltp = Unit

  abbrev pub IsLive : ℕ → Option ℕ → Type 0
  IsLive today none = ⊥
  IsLive today (some day) = today ≤ day

  pub record IsSoundRow (from_iso : String → Option ℕ) (today : ℕ)
      (r : OptionChainRecord floats.Carrier) : Type 0 where
    pub kind :
        (same_codes (codes "CE") (upper r.option_type) ≡ true)
        ⊎ (same_codes (codes "PE") (upper r.option_type) ≡ true)
    pub strike : n.le r.strike floats.origin ≡ false
    pub ltp : IsNotNegative r.ltp
    pub oi : IsNotNegative r.oi
    pub volume : IsNotNegative r.volume
    pub iv : IsVolatility r.iv
    pub quote : IsQuote r.bid r.ask
    pub live : IsLive today (from_iso r.expiry)
    pub narrow : IsNarrow r.bid r.ask r.ltp

  abbrev Empty : List Issue → Type 0
  Empty l = is_empty l ≡ true

  kind_iff :
      (t : String)
      → Empty (when (not (is_option_type n t)) invalid_option_type)
        ↔ ((same_codes (codes "CE") (upper t) ≡ true) ⊎ (same_codes (codes "PE") (upper t) ≡ true))
  unfolding is_option_type
  kind_iff t = (λ h. ground arith, λ h. ground arith)

  strike_iff :
      (x : floats.Carrier)
      → Empty (when (n.le x floats.origin) invalid_strike) ↔ (n.le x floats.origin ≡ false)
  strike_iff x = (λ h. ground arith, λ h. ground arith)

  negative_iff :
      (o : Option floats.Carrier) (i : Issue) → Empty (when (negative n o) i) ↔ IsNotNegative o
  unfolding negative
  negative_iff none i = (λ h. tt, λ h. refl)
  negative_iff (some x) i = (λ h. ground arith, λ h. ground arith)

  iv_iff : (o : Option floats.Carrier) → Empty (iv_issues n o) ↔ IsVolatility o
  unfolding iv_issues
  iv_iff none = (λ h. tt, λ h. refl)
  iv_iff (some x) = (λ h. (ground arith, ground arith), λ h. ground arith)

  quote_iff : (bid ask : Option floats.Carrier) → Empty (quote_issues n bid ask) ↔ IsQuote bid ask
  unfolding quote_issues
  quote_iff (some bid) (some ask) = (λ h. (ground arith, ground arith), λ h. ground arith)
  quote_iff (some bid) none = (λ h. tt, λ h. refl)
  quote_iff none ask = (λ h. tt, λ h. refl)

  expiry_iff : (today : ℕ) (o : Option ℕ) → Empty (expiry_issues n today o) ↔ IsLive today o
  unfolding expiry_issues
  expiry_iff today none = (λ h. cc, λ h. absurd h)
  expiry_iff today (some day) = (λ h. ground arith, λ h. ground arith)

  narrow-Empty :
      (a b c d : Bool)
      → (a ≡ false) ⊎ ((b ≡ false) ⊎ ((c ≡ false) ⊎ (d ≡ false)))
      → Empty (when (a && (b && (c && d))) wide_spread)
  narrow-Empty a b c d h = ground arith

  narrow_of :
      (a b c d : Bool)
      → Empty (when (a && (b && (c && d))) wide_spread)
      → (a ≡ false) ⊎ ((b ≡ false) ⊎ ((c ≡ false) ⊎ (d ≡ false)))
  narrow_of false b c d h = inl refl
  narrow_of true false c d h = inr (inl refl)
  narrow_of true true false d h = inr (inr (inl refl))
  narrow_of true true true d h = inr (inr (inr (ground arith)))

  spread_iff :
      (bid ask ltp : Option floats.Carrier)
      → Empty (spread_issues n bid ask ltp) ↔ IsNarrow bid ask ltp
  unfolding spread_issues positive
  spread_iff (some bid) (some ask) (some ltp) = (narrow_of _ _ _ _, narrow-Empty _ _ _ _)
  spread_iff (some bid) (some ask) none = (λ h. tt, λ h. refl)
  spread_iff (some bid) none ltp = (λ h. tt, λ h. refl)
  spread_iff none ask ltp = (λ h. tt, λ h. refl)

  is_empty-nil : (l : List Issue) → is_empty l ≡ true → l ≡ []
  is_empty-nil [] h = refl
  is_empty-nil (x ∷ l) h = cc

  append_iff :
      {P Q : Type 0} (xs ys : List Issue) → Empty xs ↔ P → Empty ys ↔ Q → Empty (xs ++ ys) ↔ (P × Q)
  append_iff [] ys p q = (λ h. (p.0 refl, q.0 h), λ h. q.1 h.1)
  append_iff (x ∷ xs) ys p q = (λ h. cc, λ h. p.1 h.0)

  issues_of_iff :
      (from_iso : String → Option ℕ) (today : ℕ) (r : OptionChainRecord floats.Carrier)
      → Empty (issues_of n from_iso today r) ↔ IsSoundRow from_iso today r
  unfolding issues_of
  issues_of_iff from_iso today r =
      let chain =
        append_iff (when (not (is_option_type n r.option_type)) invalid_option_type) _
          (kind_iff r.option_type)
          (append_iff (when (n.le r.strike floats.origin) invalid_strike) _ (strike_iff r.strike) (
            append_iff (when (negative n r.ltp) invalid_ltp) _ (negative_iff r.ltp invalid_ltp) (
              append_iff (when (negative n r.oi) negative_oi) _ (negative_iff r.oi negative_oi) (
                append_iff (when (negative n r.volume) negative_volume) _
                  (negative_iff r.volume negative_volume)
                  (append_iff (iv_issues n r.iv) _ (iv_iff r.iv) (
                    append_iff (quote_issues n r.bid r.ask) _ (quote_iff r.bid r.ask) (
                      append_iff (expiry_issues n today (from_iso r.expiry))
                        (spread_issues n r.bid r.ask r.ltp) (expiry_iff today (from_iso r.expiry))
                        (spread_iff r.bid r.ask r.ltp)))))))) in
      (
        λ h.
            let (kind, (strike, (ltp, (oi, (volume, (iv, (quote, (live, narrow)))))))) =
              chain.0 h in
            record {
              kind = kind;
              strike = strike;
              ltp = ltp;
              oi = oi;
              volume = volume;
              iv = iv;
              quote = quote;
              live = live;
              narrow = narrow;
            },
        λ s. chain.1 (
          s.kind,
          (s.strike, (s.ltp, (s.oi, (s.volume, (s.iv, (s.quote, (s.live, s.narrow))))))),
        ),
      )

  validate-passing :
      (r : OptionChainRecord floats.Carrier)
      → passes_validators r ≡ true
      → model_validate (some r) ≡ some r
  unfolding model_validate
  validate-passing r h = ground arith

  validate-failing :
      (r : OptionChainRecord floats.Carrier)
      → passes_validators r ≡ false
      → model_validate (some r) ≡ none
  unfolding model_validate
  validate-failing r h = ground arith

  -- A row whose types are right is valid exactly if it passes the model's own two validators, its type
  -- is CE or PE in either case, its strike is not at or below 0, no last price, open interest or
  -- volume that is there is below 0, a volatility that is there is neither at or below 0 nor above
  -- 500, a bid, where the ask is there too, is neither below 0 nor above the ask, the expiry is a
  -- date that has not passed, and a spread between positive prices is not at or above half of a
  -- positive last price; and it is valid exactly if no issue is reported.
  pub validate_iff :
      (from_iso : String → Option ℕ) (today : ℕ) (r : OptionChainRecord floats.Carrier)
      → let result = validate_option_chain_record n from_iso today (some r) in
        ((result.valid ≡ true) ↔ ((passes_validators r ≡ true) × IsSoundRow from_iso today r))
        × ((result.valid ≡ true) ↔ (result.issues ≡ []))
  unfolding validate_option_chain_record report_on
  validate_iff from_iso today r = elim (Bool-cases (passes_validators r)) [
    | inl passes ↦
        let sound = issues_of_iff from_iso today r in
        let issues = issues_of n from_iso today r in
        rw (validate-passing r passes, passes)
          ((λ h. (refl, sound.0 h), λ h. sound.1 h.1), (is_empty-nil issues, λ h. rw h refl))
    | inr fails ↦ rw (validate-failing r fails, fails) ((λ h. cc, λ h. cc), (λ h. cc, λ h. cc))
  ]
