-- ===== src/Deribit/Names/RoundTrip.antt =====
-- A parsed name is written back and read again as the same option.
use data_service.Common.{
  ℕ, ◌+◌, ◌%◌, ◌<◌, ◌≡◌, refl, ap, subst, ◌∙◌, true, false, some, [], ◌∷◌, ◌++◌, map, if◌then◌else◌,
  Result, ok, >>=-eq-ok, is_empty, arith, Bool-cases, inl, inr,
}
use data_service.Common.Int.{ℤ}
use data_service.Common.Value.{PyError}
use data_service.Common.Case.{upper_code}
use data_service.Common.Strip.{is_space}
use data_service.Deribit.Dates.{
  is_date, expiry_ts, expiry_ts_to_parts, expiry_ts_to_parts-expiry_ts,
}
use data_service.Deribit.Names.{
  Text, Python, Canonical, OptionType, ce, pe, month_names, month_number, lstrip, rstrip, keep,
  is_upper, expect, read_two, read_three, read_currency, read_strike, read_type, parse,
  parse_stripped, serialise, format_strike, two_digits, type_letter, join, build, of_option,
}
use data_service.Deribit.Names.Readers.{
  every, >>=?-eq-some, month_name-month_number, upper-id, read_strike-plain, two_digits-read,
  read_two-lt, read_three-append, IsCurrency, read_currency-IsCurrency, read_currency-append,
  read_type-letter, IsPlain,
}

-- A text that ends in no white space, and is not empty.
abbrev IsTrim : Text → Type 0
IsTrim t = (rstrip t ≡ t) × (is_empty t ≡ false)

keep-cons : (c : ℕ) (t : Text) → is_empty t ≡ false → keep c t ≡ c ∷ t
unfolding keep
keep-cons c [] h = cc
keep-cons c (d ∷ t) h = refl

cons-IsTrim : (c : ℕ) (t : Text) → IsTrim t → IsTrim (c ∷ t)
unfolding rstrip
cons-IsTrim c t (p, q) = (ap (keep c) p ∙ keep-cons c t q, refl)

append-IsTrim : (xs ys : Text) → IsTrim ys → IsTrim (xs ++ ys)
append-IsTrim [] ys h = h
append-IsTrim (x ∷ xs) ys h = cons-IsTrim x (xs ++ ys) (append-IsTrim xs ys h)

letter-IsTrim : (py : Python) (o : OptionType) → IsTrim (type_letter py o ∷ [])
unfolding rstrip keep type_letter is_space
letter-IsTrim py ce = (refl, refl)
letter-IsTrim py pe = (refl, refl)

lstrip-upper : (c : ℕ) (t : Text) → is_upper c ≡ true → lstrip (c ∷ t) ≡ c ∷ t
unfolding lstrip is_upper is_space
lstrip-upper c t h = ground arith

module _ (py : Python) where
  open py use {Strike, digit}

  join-strip :
      (currency : Text) (day : ℕ) (month : Text) (year : ℕ) (strike : Text) (o : OptionType)
      → IsCurrency py currency
      → rstrip (lstrip (join py currency day month year strike o))
        ≡ join py currency day month year strike o
  unfolding join every
  join-strip [] day month year strike o (h, low, high) = absurd (omega arith)
  join-strip (c ∷ cs) day month year strike o (h, low, high) =
      let text = join py (c ∷ cs) day month year strike o in
      let trim : IsTrim text = append-IsTrim (c ∷ cs) _ (
        cons-IsTrim b'-' _ (
          append-IsTrim (two_digits py day) _ (
            append-IsTrim month _ (
              append-IsTrim (two_digits py year) _ (
                cons-IsTrim b'-' _
                  (append-IsTrim strike _ (cons-IsTrim b'-' _ (letter-IsTrim py o)))))))) in
      ap rstrip (lstrip-upper c _ (ground arith)) ∙ trim.0

  -- The parts of a name that was parsed.
  pub record Reading (c : Canonical Strike) : Type 0 where
    pub currency : Text
    pub day : ℕ
    pub month_text : Text
    pub month : ℕ
    pub year : ℕ
    pub strike_text : Text
    pub is_currency : IsCurrency py currency
    pub day_lt : day < 100
    pub year_lt : year < 100
    pub three : (q : Text) → read_three py (month_text ++ q) ≡ some (month_text, q)
    pub named : month_number 1 month_names month_text ≡ some month
    pub valid : is_date (2000 + year) month day ≡ true
    pub base_currency : c.base_currency ≡ currency
    pub expires : c.expiry_ts ≡ expiry_ts day month year

  build-eq-some :
      (currency : Text) (day : ℕ) (month_text : Text) (year : ℕ) (strike : Text) (o : OptionType)
      (c : Canonical Strike)
      → build py currency day month_text year strike o ≡ some c
      → (month : ℕ) × (month_number 1 month_names month_text ≡ some month)
        × (is_date (2000 + year) month day ≡ true)
        × (c.base_currency ≡ currency)
        × (c.expiry_ts ≡ expiry_ts day month year)
  unfolding build
  build-eq-some currency day month_text year strike o c h =
      let (month, p, h1) = >>=?-eq-some (month_number 1 month_names month_text) _ h in
      elim (Bool-cases (is_date (2000 + year) month day)) [
        | inl e ↦ (month, p, e, ground arith, ground arith)
        | inr e ↦ absurd (ground arith)
      ]

  pub parse-Reading : (t : Text) (c : Canonical Strike) → parse_stripped py t ≡ some c → Reading c
  unfolding parse_stripped
  parse-Reading t c h =
      let (name, p1, h1) = >>=?-eq-some (read_currency py t) _ h in
      let (t2, p2, h2) = >>=?-eq-some (expect b'-' name.1) _ h1 in
      let (day, p3, h3) = >>=?-eq-some (read_two py t2) _ h2 in
      let (month, p4, h4) = >>=?-eq-some (read_three py day.1) _ h3 in
      let (year, p5, h5) = >>=?-eq-some (read_two py month.1) _ h4 in
      let (t6, p6, h6) = >>=?-eq-some (expect b'-' year.1) _ h5 in
      let (strike, p7, h7) = >>=?-eq-some (read_strike py t6) _ h6 in
      let (t8, p8, h8) = >>=?-eq-some (expect b'-' strike.1) _ h7 in
      let (o, p9, h9) = >>=?-eq-some (read_type py t8) _ h8 in
      let (m, q1, q2, q3, q4) = build-eq-some name.0 day.0 month.0 year.0 strike.0 o c h9 in
      record {
        currency = name.0;
        day = day.0;
        month_text = month.0;
        month = m;
        year = year.0;
        strike_text = strike.0;
        is_currency = read_currency-IsCurrency py t name.0 name.1 p1;
        day_lt = read_two-lt py t2 day.1 day.0 p3;
        year_lt = read_two-lt py month.1 year.1 year.0 p5;
        three = λ q. read_three-append py day.1 month.0 month.1 q p4;
        named = q1;
        valid = q2;
        base_currency = q3;
        expires = q4;
      }

  format_strike-read : (x : Strike) (s : Text) → format_strike py x ≡ ok s → py.read_float s ≡ x
  unfolding format_strike
  format_strike-read x s h =
      let shown : ℤ → Result PyError Text =
        λ z. ok (if py.equals x z then py.show_int z else py.show_float x) in
      let (z, p, done) = >>=-eq-ok (py.to_int x) shown h in
      elim (Bool-cases (py.equals x z)) [
        | inl e ↦
            let same : py.show_int z ≡ s = ground arith in
            subst (λ t. py.read_float t ≡ x) same (py.read_int x z e)
        | inr e ↦
            let same : py.show_float x ≡ s = ground arith in
            subst (λ t. py.read_float t ≡ x) same (py.read_show x)
      ]

  stripped-join :
      (currency : Text) (day : ℕ) (month : Text) (year : ℕ) (s : Text) (o : OptionType)
      → IsCurrency py currency
      → day < 100
      → year < 100
      → ((q : Text) → read_three py (month ++ q) ≡ some (month, q))
      → IsPlain py s
      → parse_stripped py (join py currency day month year s o)
        ≡ build py currency day month year s o
  unfolding parse_stripped join
  stripped-join currency day month year s o named d y three plain =
      let end = b'-' ∷ (type_letter py o ∷ []) in
      rw (read_currency-append py currency _ named) (
        rw (two_digits-read py day _ d) (
          rw (three _) (
            rw (two_digits-read py year _ y) (
              rw (read_strike-plain py s (type_letter py o ∷ []) plain)
                (rw (read_type-letter py o) refl)))))

  serialise-Reading :
      (c : Canonical Strike) (r : Reading c) (s : Text)
      → format_strike py c.strike ≡ ok s
      → serialise py c ≡ ok (join py r.currency r.day r.month_text r.year s c.option_type)
  unfolding serialise of_option
  serialise-Reading c r s f =
      let year : (2000 + r.year) % 100 ≡ r.year = omega (arith, r.year_lt) in
      let parts = expiry_ts_to_parts-expiry_ts r.day r.month r.year r.year_lt r.valid in
      let month = (month_name-month_number 1 month_names r.month_text r.month r.named).1 in
      let upper = ap (map upper_code) r.base_currency ∙ upper-id r.currency r.is_currency.0 in
      rw (ap expiry_ts_to_parts r.expires ∙ parts) (rw (month, f, upper, year) refl)

  build-Reading :
      (c : Canonical Strike) (r : Reading c) (s : Text)
      → format_strike py c.strike ≡ ok s
      → build py r.currency r.day r.month_text r.year s c.option_type ≡ some c
  unfolding build
  build-Reading c r s f =
      rw (r.named, r.valid)
        (ground (arith, format_strike-read c.strike s f, r.base_currency, r.expires))

  parse-join :
      (currency : Text) (day : ℕ) (month : Text) (year : ℕ) (s : Text) (o : OptionType)
      → IsCurrency py currency
      → day < 100
      → year < 100
      → ((q : Text) → read_three py (month ++ q) ≡ some (month, q))
      → IsPlain py s
      → parse py (join py currency day month year s o) ≡ build py currency day month year s o
  unfolding parse
  parse-join currency day month year s o named d y three plain =
      ap (parse_stripped py) (join-strip currency day month year s o named)
      ∙ stripped-join currency day month year s o named d y three plain

  -- A parsed name survives writing and reading: if a name is parsed and the strike is one that Python
  -- writes as digits with at most one dot, then the option is written without an error, and what is
  -- written is parsed as the same option.
  pub parse-serialise :
      (t : Text) (c : Canonical Strike) (s : Text)
      → parse py t ≡ some c
      → format_strike py c.strike ≡ ok s
      → IsPlain py s
      → (u : Text) × (serialise py c ≡ ok u) × (parse py u ≡ some c)
  unfolding parse
  parse-serialise t c s h f plain =
      let r = parse-Reading (rstrip (lstrip t)) c h in
      let u = join py r.currency r.day r.month_text r.year s c.option_type in
      (
        u,
        serialise-Reading c r s f,
        parse-join r.currency r.day r.month_text r.year s c.option_type r.is_currency r.day_lt
              r.year_lt r.three plain
            ∙ build-Reading c r s f,
      )
