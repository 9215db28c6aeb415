-- ===== src/Deribit/Names.antt =====
-- src/core/parsers/deribit_parser.py: `parse`, `serialise` and `verify_round_trip`. Python's decimal
-- digits, of any script, and the texts of its numbers are interfaces.
pub mod Readers
pub mod RoundTrip
pub mod Verify
use data_service.Common.{
  ℕ, suc, ◌+◌, ◌*◌, ◌/◌, ◌%◌, ◌≤◌, ◌<◌, ◌≡◌, Bool, true, false, not, ◌&&◌, ◌||◌, Option, none, some,
  List, [], ◌∷◌, ◌++◌, map, leb, ltb, ◌==◌, if◌then◌else◌, Result, ok, err, ◌>>=◌, length,
}
use data_service.Common.Int.{ℤ}
use data_service.Common.Value.{PyError, value_error, type_error, overflow_error}
use data_service.Common.Case.{codes, upper_code, same_codes}
use data_service.Common.Strip.{is_space}
use data_service.Deribit.Dates.{Parts, is_date, expiry_ts, expiry_ts_to_parts}

abbrev pub Text : Type 0
Text = List ℕ

-- Strikes are the floats that a text of digits makes, so none is NaN or has a sign: what Python makes
-- of such a text, how it compares a float with a whole number, and the texts of the two, which
-- read back as the same number.
pub record Python : Type 1 where
  pub digit : ℕ → Option ℕ
  pub Strike : Type 0
  pub read_float : Text → Strike
  pub to_int : Strike → Result PyError ℤ
  pub equals : Strike → ℤ → Bool
  pub same : Strike → Strike → Bool
  pub show_int : ℤ → Text
  pub show_float : Strike → Text
  pub digit_lt : (c k : ℕ) → digit c ≡ some k → k < 10
  pub digit_ascii : (k : ℕ) → k < 10 → digit (b'0' + k) ≡ some k
  pub digit_dash : digit b'-' ≡ none
  pub digit_dot : digit b'.' ≡ none
  pub read_int : (x : Strike) (z : ℤ) → equals x z ≡ true → read_float (show_int z) ≡ x
  pub read_show : (x : Strike) → read_float (show_float x) ≡ x
  pub same_refl : (x : Strike) → same x x ≡ true

pub data OptionType : Type 0 where
  ce pe : OptionType

pub record Canonical (A : Type 0) : Type 0 where
  pub base_currency : Text
  pub expiry_ts : ℕ
  pub strike : A
  pub option_type : OptionType

abbrev pub month_names : List Text
month_names =
    codes "JAN"
    ∷ codes "FEB"
    ∷ codes "MAR"
    ∷ codes "APR"
    ∷ codes "MAY"
    ∷ codes "JUN"
    ∷ codes "JUL"
    ∷ codes "AUG"
    ∷ codes "SEP"
    ∷ codes "OCT"
    ∷ codes "NOV"
    ∷ codes "DEC"
    ∷ []

-- `_MONTH_STR_TO_NUM`, counted from the given number.
pub month_number : ℕ → List Text → Text → Option ℕ
month_number k [] t = none
month_number k (m ∷ ms) t = if same_codes m t then some k else month_number (suc k) ms t

-- `_MONTH_NUM_TO_STR`
pub month_name : ℕ → List Text → ℕ → Option Text
month_name k [] i = none
month_name k (m ∷ ms) i = if k == i then some m else month_name (suc k) ms i

-- `str.strip`
pub lstrip : Text → Text
lstrip [] = []
lstrip (c ∷ t) = let rest = lstrip t in if is_space c then rest else c ∷ t

pub keep : ℕ → Text → Text
keep c [] = if is_space c then [] else c ∷ []
keep c (d ∷ t) = c ∷ (d ∷ t)

pub rstrip : Text → Text
unfolding keep
rstrip [] = []
rstrip (c ∷ t) = keep c (rstrip t)

unfoldable pub is_upper : ℕ → Bool
is_upper c = leb b'A' c && leb c b'Z'

-- The longest start whose characters pass a test, and the rest.
unfoldable pub span : (ℕ → Bool) → Text → Text × Text
span p [] = ([], [])
span p (c ∷ t) = let s = span p t in if p c then (c ∷ s.0, s.1) else ([], c ∷ t)

-- The rest after a given character.
pub expect : ℕ → Text → Option Text
expect x [] = none
expect x (c ∷ t) = if c == x then some t else none

infixl 5 ◌>>=?◌
abbrev pub ◌>>=?◌ {ℓ κ} : {A : Type ℓ} {B : Type κ} → Option A → (A → Option B) → Option B
none >>=? f = none
some a >>=? f = f a

module _ (py : Python) where
  open py use {Strike, digit}

  unfoldable pub is_digit : ℕ → Bool
  is_digit c = elim (digit c) [ none ↦ false | some k ↦ true ]

  -- `\d{2}`, as the number that `int` reads.
  pub read_two : Text → Option (ℕ × Text)
  read_two [] = none
  read_two (a ∷ []) = none
  read_two (a ∷ (b ∷ t)) = digit a >>=? λ x. digit b >>=? λ y. some (x * 10 + y, t)

  -- `[A-Z]{3}`
  pub read_three : Text → Option (Text × Text)
  unfolding is_upper
  read_three (a ∷ (b ∷ (c ∷ t))) =
      if is_upper a && (is_upper b && is_upper c) then some (a ∷ b ∷ c ∷ [], t) else none
  read_three t = none

  -- `[A-Z]{2,6}`
  pub read_currency : Text → Option (Text × Text)
  read_currency t =
      let (name, rest) = span is_upper t in
      if leb 2 (length name) && leb (length name) 6 then some (name, rest) else none

  pub decimals : Text → Text × Text → Option (Text × Text)
  decimals whole ([], rest) = none
  decimals whole (d ∷ ds, rest) = some (whole ++ (b'.' ∷ (d ∷ ds)), rest)

  pub after_whole : Text → Text → Option (Text × Text)
  unfolding decimals
  after_whole whole [] = some (whole, [])
  after_whole whole (c ∷ t) =
      if c == b'.' then decimals whole (span is_digit t) else some (whole, c ∷ t)

  pub strike_from : Text × Text → Option (Text × Text)
  unfolding after_whole
  strike_from ([], rest) = none
  strike_from (d ∷ ds, rest) = after_whole (d ∷ ds) rest

  -- `\d+(?:\.\d+)?`
  pub read_strike : Text → Option (Text × Text)
  unfolding strike_from
  read_strike t = strike_from (span is_digit t)

  -- `[CP]$`
  pub read_type : Text → Option OptionType
  read_type (c ∷ []) = if c == b'C' then some ce else if c == b'P' then some pe else none
  read_type t = none

  pub build : Text → ℕ → Text → ℕ → Text → OptionType → Option (Canonical Strike)
  unfolding month_number is_date expiry_ts
  build currency day month_text year strike option_type =
      month_number 1 month_names month_text >>=? λ month.
      if is_date (2000 + year) month day
      then some (record {
        base_currency = currency;
        expiry_ts = expiry_ts day month year;
        strike = py.read_float strike;
        option_type = option_type;
      })
      else none

  -- The pattern from its start to its end, and what follows the match.
  unfoldable pub parse_stripped : Text → Option (Canonical Strike)
  unfolding read_currency expect read_two read_three read_strike read_type build
  parse_stripped t = read_currency t >>=? λ (currency, t1). expect b'-' t1 >>=? λ t2.
      read_two t2 >>=? λ (day, t3). read_three t3 >>=? λ (month, t4). read_two t4 >>=? λ (year, t5).
      expect b'-' t5 >>=? λ t6. read_strike t6 >>=? λ (strike, t7). expect b'-' t7 >>=? λ t8.
      read_type t8 >>=? λ option_type. build currency day month year strike option_type

  unfoldable pub parse : Text → Option (Canonical Strike)
  unfolding lstrip rstrip parse_stripped
  parse t = parse_stripped (rstrip (lstrip t))

  -- `_format_strike`; `int` of an infinity raises.
  unfoldable pub format_strike : Strike → Result PyError Text
  format_strike x = do
    z ← py.to_int x
    ok (if py.equals x z then py.show_int z else py.show_float x)

  -- `{n:02d}` of a number below 100.
  pub two_digits : ℕ → Text
  two_digits k = (b'0' + k / 10) ∷ (b'0' + k % 10) ∷ []

  pub type_letter : OptionType → ℕ
  type_letter ce = b'C'
  type_letter pe = b'P'

  pub of_option {ℓ} : {A : Type ℓ} → Option A → Result PyError A
  of_option none = err value_error
  of_option (some a) = ok a

  pub join : Text → ℕ → Text → ℕ → Text → OptionType → Text
  unfolding two_digits type_letter
  join currency day month year strike option_type =
      currency
      ++ (b'-'
          ∷ (two_digits day
              ++ (month
                  ++ (two_digits year
                      ++ (b'-' ∷ (strike ++ (b'-' ∷ (type_letter option_type ∷ []))))))))

  -- A canonical record that has all its fields; the option type is CE or PE by its type.
  unfoldable pub serialise : Canonical Strike → Result PyError Text
  unfolding of_option month_name expiry_ts_to_parts format_strike join
  serialise c = do
    parts ← of_option (expiry_ts_to_parts c.expiry_ts)
    month ← of_option (month_name 1 month_names parts.month)
    strike ← format_strike c.strike
    ok (
        join (map upper_code c.base_currency) parts.day month (parts.full_year % 100) strike
          c.option_type)

  pub same_type : OptionType → OptionType → Bool
  same_type ce ce = true
  same_type pe pe = true
  same_type a b = false

  -- Equality of the two dictionaries.
  pub same_canonical : Canonical Strike → Canonical Strike → Bool
  unfolding same_type
  same_canonical a b =
      same_codes a.base_currency b.base_currency
      && (a.expiry_ts == b.expiry_ts
          && (py.same a.strike b.strike && same_type a.option_type b.option_type))

  pub same_parse : Canonical Strike → Option (Canonical Strike) → Bool
  unfolding same_canonical
  same_parse c none = false
  same_parse c (some d) = same_canonical c d

  -- Only a `ValueError` of the serialiser is caught.
  pub reparse : Canonical Strike → Result PyError Text → Result PyError Bool
  unfolding same_parse parse
  reparse c (ok u) = ok (same_parse c (parse u))
  reparse c (err value_error) = ok false
  reparse c (err e) = err e

  pub verify_parsed : Option (Canonical Strike) → Result PyError Bool
  unfolding reparse serialise
  verify_parsed none = ok false
  verify_parsed (some c) = reparse c (serialise c)

  unfoldable pub verify_round_trip : Text → Result PyError Bool
  unfolding verify_parsed parse
  verify_round_trip t = verify_parsed (parse t)
