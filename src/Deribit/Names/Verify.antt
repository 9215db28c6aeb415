-- ===== src/Deribit/Names/Verify.antt =====
-- src/core/parsers/deribit_parser.py: what `verify_round_trip` answers.
use data_service.Common.{
  ◌≡◌, refl, ap, subst, ◌∙◌, true, Option, none, some, [], ◌∷◌, ok, err, arith,
}
use data_service.Common.Value.{overflow_error}
use data_service.Common.Case.{same_codes}
use data_service.Deribit.Dates.{expiry_ts_to_parts, expiry_ts_to_parts-expiry_ts}
use data_service.Deribit.Names.{
  Text, Python, Canonical, OptionType, ce, pe, month_names, lstrip, rstrip, parse, parse_stripped,
  serialise, format_strike, of_option, same_canonical, same_type, verify_round_trip, verify_parsed,
  reparse, same_parse,
}
use data_service.Deribit.Names.Readers.{month_name-month_number, IsPlain}
use data_service.Deribit.Names.RoundTrip.{parse-Reading, parse-serialise}

module _ (py : Python) where
  open py use {Strike, digit}

  same_codes_refl : (t : Text) → same_codes t t ≡ true
  unfolding same_codes
  same_codes_refl [] = refl
  same_codes_refl (c ∷ t) = ground (arith, same_codes_refl t)

  type_refl : (o : OptionType) → same_type py o o ≡ true
  unfolding same_type
  type_refl ce = refl
  type_refl pe = refl

  format_overflow :
      (x : Strike) → py.to_int x ≡ err overflow_error → format_strike py x ≡ err overflow_error
  unfolding format_strike
  format_overflow x e = rw e refl

  parsed :
      (t : Text) (c : Canonical Strike)
      → parse py t ≡ some c
      → parse_stripped py (rstrip (lstrip t)) ≡ some c
  unfolding parse
  parsed t c h = h

  same_canonical_refl : (c : Canonical Strike) → same_canonical py c c ≡ true
  unfolding same_canonical same_type
  same_canonical_refl c =
      ground
        (arith, same_codes_refl c.base_currency, py.same_refl c.strike, type_refl c.option_type)

  -- A strike that is too large for a whole number of Python to hold, which a long enough text of digits
  -- reads as, makes `verify_round_trip` raise instead of answering no.
  pub verify_round_trip-overflow :
      (t : Text) (c : Canonical Strike)
      → parse py t ≡ some c
      → py.to_int c.strike ≡ err overflow_error
      → verify_round_trip py t ≡ err overflow_error
  unfolding verify_round_trip verify_parsed reparse serialise of_option
  verify_round_trip-overflow t c h e =
      let r = parse-Reading py (rstrip (lstrip t)) c (parsed t c h) in
      let parts = expiry_ts_to_parts-expiry_ts r.day r.month r.year r.year_lt r.valid in
      let month = (month_name-month_number 1 month_names r.month_text r.month r.named).1 in
      rw h
        (rw (ap expiry_ts_to_parts r.expires ∙ parts) (rw (month, format_overflow c.strike e) refl))

  same_parse_refl :
      (c : Canonical Strike) (o : Option (Canonical Strike)) → o ≡ some c → same_parse py c o ≡ true
  unfolding same_parse
  same_parse_refl c none e = cc
  same_parse_refl c (some d) e =
      let same : c ≡ d = cc in
      subst (λ x. same_canonical py c x ≡ true) same (same_canonical_refl c)

  -- Under the same conditions `verify_round_trip` answers yes.
  pub verify_round_trip-true :
      (t : Text) (c : Canonical Strike) (s : Text)
      → parse py t ≡ some c
      → format_strike py c.strike ≡ ok s
      → IsPlain py s
      → verify_round_trip py t ≡ ok true
  unfolding verify_round_trip verify_parsed reparse
  verify_round_trip-true t c s h f plain =
      let (u, p, q) = parse-serialise py t c s h f plain in
      rw h (rw p (ap ok (same_parse_refl c (parse py u) q)))
