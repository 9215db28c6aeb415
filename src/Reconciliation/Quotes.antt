-- ===== src/Reconciliation/Quotes.antt =====
-- Where the canonical price and open interest come from, and when a price is lost.
use data_service.Common.{
  ℕ, ◌≤◌, ◌<◌, ltb→lt, ◌≡◌, ◌↔◌, refl, String, false, Option, none, some, arith, Bool-cases, inl,
  inr, ltb,
}
use data_service.Common.Int.{ℤ}
use data_service.Common.Value.{Numbers}
use data_service.Reconciliation.{
  LtpRule, fresher_timestamp, providers_agree, Observation, Provider, angel_one, upstox,
  Classification, match, minor_difference, significant_difference, stale, missing, reconcile_quote,
  select_canonical_quote, select_ltp, select_oi, choose, is_fresher, timestamp_of, Instant, aware,
  fresher_text, is_later, classify_ltp_diff, ltp_percent, timestamp_diff_ms, by_difference,
  is_stale,
}

module _ (from_iso : String → Option Instant) (cut : ℕ → ℕ) (n : Numbers) where
  open n use {floats}

  abbrev pub Seen : Type 0
  Seen = Option (Observation floats.Carrier)

  abbrev pub ltp_of : Option Provider → Seen → Seen → Option floats.Carrier
  ltp_of (some angel_one) (some a) u = a.ltp
  ltp_of (some upstox) a (some u) = u.ltp
  ltp_of p a u = none

  abbrev pub oi_in : Seen → Option ℤ
  oi_in none = none
  oi_in (some o) = o.oi

  abbrev pub first_oi : Option ℤ → Option ℤ → Option ℤ
  first_oi (some a) u = some a
  first_oi none u = u

  first_none : (o : Option ℤ) → o ≡ first_oi o none
  first_none none = refl
  first_none (some x) = refl

  choose-source :
      (rule : Provider → LtpRule) (a u : Observation floats.Carrier)
      → let (provider, ltp, r) = choose from_iso cut n rule a u in
        ltp ≡ ltp_of (some provider) (some a) (some u)
  unfolding choose
  choose-source rule a u = elim (Bool-cases (is_fresher from_iso cut u a)) [
    | inl e ↦ rw e
    | inr e ↦ rw e
  ]

  select_ltp-source :
      (c : Classification) (a u : Observation floats.Carrier)
      → let (provider, ltp, rule) = select_ltp from_iso cut n c a u in
        ltp ≡ ltp_of (some provider) (some a) (some u)
  unfolding select_ltp
  select_ltp-source stale a u = choose-source fresher_timestamp a u
  select_ltp-source match a u = choose-source providers_agree a u
  select_ltp-source minor_difference a u = choose-source providers_agree a u
  select_ltp-source significant_difference a u = refl
  select_ltp-source missing a u = refl

  select_oi-first : (a u : Option ℤ) → (select_oi from_iso cut n a u).0 ≡ first_oi a u
  unfolding select_oi
  select_oi-first (some a) u = refl
  select_oi-first none (some u) = refl
  select_oi-first none none = refl

  -- No value is invented: on every branch the canonical price is the one that the canonical provider
  -- gave, the canonical open interest is that of Angel One, or that of Upstox if Angel One gave
  -- none, and there is no canonical provider exactly if neither provider answered.
  pub reconcile_quote-sources :
      (a u : Seen)
      → let r = reconcile_quote from_iso cut n a u in
        (r.canonical_ltp ≡ ltp_of r.canonical_provider a u)
        × (r.canonical_oi ≡ first_oi (oi_in a) (oi_in u))
        × ((r.canonical_provider ≡ none) ↔ ((a ≡ none) × (u ≡ none)))
  unfolding reconcile_quote select_canonical_quote
  reconcile_quote-sources none none = (refl, refl, (λ h. (refl, refl), λ h. refl))
  reconcile_quote-sources none (some u) = (refl, refl, (λ h. cc, λ h. cc))
  reconcile_quote-sources (some a) none = (refl, first_none a.oi, (λ h. cc, λ h. cc))
  reconcile_quote-sources (some a) (some u) = (
    select_ltp-source
        (classify_ltp_diff from_iso cut n (ltp_percent from_iso cut n a.ltp u.ltp)
          (timestamp_diff_ms from_iso cut a.source_timestamp u.source_timestamp))
        a u,
    select_oi-first a.oi u.oi,
    (λ h. cc, λ h. cc),
  )

  -- A price is taken by freshness.
  abbrev pub IsByFreshness : Classification → Type 0
  IsByFreshness significant_difference = ⊥
  IsByFreshness missing = ⊥
  IsByFreshness c = Unit

  abbrev pub HasTime : Observation floats.Carrier → ℕ → Type 0
  HasTime o t =
      (text : String) × (timestamp_of from_iso cut o ≡ some text) × (from_iso text ≡ some (aware t))

  is_fresher-lt :
      (a u : Observation floats.Carrier) (x y : ℕ)
      → HasTime a x
      → HasTime u y
      → is_fresher from_iso cut u a ≡ ltb x y
  unfolding is_fresher fresher_text is_later
  is_fresher-lt a u x y (s, p, p') (t, q, q') = rw (p, q, p', q') refl

  -- The provider that is taken is not the older one.
  abbrev pub IsNotOlder : Provider → ℕ → ℕ → Type 0
  IsNotOlder angel_one x y = y ≤ x
  IsNotOlder upstox x y = x < y

  choose-IsNotOlder :
      (rule : Provider → LtpRule) (a u : Observation floats.Carrier) (x y : ℕ)
      → HasTime a x
      → HasTime u y
      → IsNotOlder (choose from_iso cut n rule a u).0 x y
  unfolding choose
  choose-IsNotOlder rule a u x y p q = elim (Bool-cases (ltb x y)) [
    | inl later ↦ rw (is_fresher-lt a u x y p q, later) (ltb→lt x y later)
    | inr early ↦ rw (is_fresher-lt a u x y p q, early) (ground arith)
  ]

  select-IsNotOlder :
      (c : Classification) (a u : Observation floats.Carrier) (x y : ℕ)
      → HasTime a x
      → HasTime u y
      → IsByFreshness c
      → IsNotOlder (select_ltp from_iso cut n c a u).0 x y
  unfolding select_ltp
  select-IsNotOlder stale a u x y p q h = choose-IsNotOlder fresher_timestamp a u x y p q
  select-IsNotOlder match a u x y p q h = choose-IsNotOlder providers_agree a u x y p q
  select-IsNotOlder minor_difference a u x y p q h = choose-IsNotOlder providers_agree a u x y p q
  select-IsNotOlder significant_difference a u x y p q h = absurd h
  select-IsNotOlder missing a u x y p q h = absurd h

  -- When two providers answer with time stamps that have a time zone, and their prices agree, nearly
  -- agree or are far apart in time, then the canonical provider is the one whose time stamp is not
  -- older, or Angel One if the two are equal, and the canonical price is what that provider gave.
  pub reconcile_quote-IsNotOlder :
      (a u : Observation floats.Carrier) (x y : ℕ)
      → HasTime a x
      → HasTime u y
      → IsByFreshness (reconcile_quote from_iso cut n (some a) (some u)).classification
      → let r = reconcile_quote from_iso cut n (some a) (some u) in
        (p : Provider) × (r.canonical_provider ≡ some p)
        × IsNotOlder p x y
        × (r.canonical_ltp ≡ ltp_of (some p) (some a) (some u))
  unfolding reconcile_quote select_canonical_quote
  reconcile_quote-IsNotOlder a u x y p q h =
      let c =
        classify_ltp_diff from_iso cut n (ltp_percent from_iso cut n a.ltp u.ltp)
          (timestamp_diff_ms from_iso cut a.source_timestamp u.source_timestamp) in
      (
        (select_ltp from_iso cut n c a u).0,
        refl,
        select-IsNotOlder c a u x y p q h,
        select_ltp-source c a u,
      )

  percent_none : (a u : Option floats.Carrier) → u ≡ none → ltp_percent from_iso cut n a u ≡ none
  unfolding ltp_percent
  percent_none none u h = refl
  percent_none (some a) none h = refl
  percent_none (some a) (some u) h = cc

  -- A price can be lost: if Upstox answers without a price, and the time stamps are not more than five
  -- seconds apart or one cannot be read, then there is no canonical price, also where Angel One
  -- gave one.
  pub reconcile_quote-lost :
      (a u : Observation floats.Carrier)
      → u.ltp ≡ none
      → is_stale from_iso cut n
          (timestamp_diff_ms from_iso cut a.source_timestamp u.source_timestamp)
        ≡ false
      → let r = reconcile_quote from_iso cut n (some a) (some u) in
        (r.classification ≡ missing)
        × (r.canonical_provider ≡ some upstox)
        × (r.canonical_ltp ≡ none)
  unfolding reconcile_quote select_canonical_quote classify_ltp_diff select_ltp by_difference
  reconcile_quote-lost a u h e = rw (percent_none a.ltp u.ltp h, e) (refl, refl, h)
