-- ===== src/Tests/Names.antt =====
-- The names of Deribit's options at a concrete input. A strike is kept as its text.
use data_service.Common.{
  ℕ, ◌+◌, ◌-◌, ◌<◌, ◌≡◌, refl, true, ◌&&◌, Option, none, some, [], ◌∷◌, leb, if◌then◌else◌, ok,
  arith,
}
use data_service.Common.Int.{pos}
use data_service.Common.Case.{codes, same_codes}
use data_service.Common.Strip.{is_space}
use data_service.Deribit.Names.{
  span, is_digit, is_upper, Python, Text, Canonical, OptionType, parse, serialise, format_strike,
}
use data_service.Deribit.Names.Readers.{every, IsPlain, whole}
use data_service.Deribit.Names.RoundTrip.{parse-serialise}
use data_service.Deribit.Dates.{is_date, expiry_ts}

pub ascii_digit : ℕ → Option ℕ
ascii_digit c = if leb 48 c && leb c 57 then some (c - 48) else none

pub no_dash : ascii_digit 45 ≡ none
unfolding ascii_digit
no_dash = refl

pub no_dot : ascii_digit 46 ≡ none
unfolding ascii_digit
no_dot = refl

pub ascii_digit-lt : (c k : ℕ) → ascii_digit c ≡ some k → k < 10
unfolding ascii_digit
ascii_digit-lt c k h = ground arith

pub ascii_digit-add : (k : ℕ) → k < 10 → ascii_digit (48 + k) ≡ some k
unfolding ascii_digit
ascii_digit-add k h = ground arith

pub same_codes_refl : (t : Text) → same_codes t t ≡ true
unfolding same_codes
same_codes_refl [] = refl
same_codes_refl (c ∷ t) = ground (arith, same_codes_refl t)

pub same_codes-eq : (s t : Text) → same_codes s t ≡ true → s ≡ t
unfolding same_codes
same_codes-eq [] [] h = refl
same_codes-eq [] (c ∷ t) h = ground arith
same_codes-eq (b ∷ s) [] h = ground arith
same_codes-eq (b ∷ s) (c ∷ t) h =
    let e : b ≡ c = ground arith in
    let rest : s ≡ t = same_codes-eq s t (ground arith) in λ i. e i ∷ rest i

abbrev thirty : Text
thirty = codes "30000"

abbrev texts : Python
texts = record {
  digit = ascii_digit;
  Strike = Text;
  read_float = λ t. t;
  to_int = λ x. ok (pos 30000);
  equals = λ x z. same_codes thirty x;
  same = same_codes;
  show_int = λ z. thirty;
  show_float = λ x. x;
  digit_lt = ascii_digit-lt;
  digit_ascii = ascii_digit-add;
  digit_dash = no_dash;
  digit_dot = no_dot;
  read_int = λ x z h. same_codes-eq thirty x h;
  read_show = λ x. refl;
  same_refl = same_codes_refl;
}

abbrev name : Text
name = codes "BTC-25JAN24-30000-C"

abbrev option : Canonical Text
option = record {
  base_currency = codes "BTC";
  expiry_ts = expiry_ts 25 1 24;
  strike = thirty;
  option_type = OptionType.ce;
}

parsed : parse texts name ≡ some option
unfolding parse span is_digit is_upper is_date ascii_digit same_codes is_space
parsed = refl

thirty-IsPlain : IsPlain texts thirty
unfolding ascii_digit is_digit every
thirty-IsPlain = whole 51 (48 ∷ 48 ∷ 48 ∷ 48 ∷ []) refl

formatted : format_strike texts thirty ≡ ok thirty
unfolding format_strike same_codes
formatted = refl

parse-serialise_example :
    (u : Text) × (serialise texts option ≡ ok u) × (parse texts u ≡ some option)
parse-serialise_example = parse-serialise texts name option thirty parsed formatted thirty-IsPlain
