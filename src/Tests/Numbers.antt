-- ===== src/Tests/Numbers.antt =====
-- Whole numbers as the floats of the values, for concrete inputs.
use data_service.Common.{
  ◌≤◌, ℕ, ◌-◌, ◌*◌, ◌/◌, ◌≡◌, refl, not, true, leb, ltb, Option, none, String, Result, ok, err,
  if◌then◌else◌, ◌==◌, arith,
}
use data_service.Common.Int.{ℤ, pos, negsuc}
use data_service.Common.Value.{Numbers, PyError, overflow_error}
use data_service.Tests.Validation.{whole_floats, no_text}

pub leb-ltb_trans : (a b c : ℕ) → leb a b ≡ true → ltb b c ≡ true → ltb a c ≡ true
leb-ltb_trans a b c h k = ground arith

pub same_ltb : (a b : ℕ) → a ≤ 9007199254740992 → b ≤ 9007199254740992 → ltb a b ≡ ltb a b
same_ltb a b h k = refl

-- The number 1000000 stands for the infinity.
abbrev int_of_whole : ℕ → Result PyError ℤ
int_of_whole x = if x == 1000000 then err overflow_error else ok (pos x)

abbrev whole_of_int : ℤ → Result PyError ℕ
whole_of_int (pos k) = ok k
whole_of_int (negsuc k) = ok 0

abbrev no_int : String → Option ℤ
no_int s = none

abbrev pub whole_numbers : Numbers
whole_numbers = record {
  floats = whole_floats;
  le = leb;
  is_nonzero = λ x. not (x == 0);
  mul = λ x y. x * y;
  sub = λ x y. x - y;
  div = λ x y. x / y;
  abs = λ x. x;
  quarter = 1;
  of_ℕ = λ x. x;
  int_of_float = int_of_whole;
  float_of_int = whole_of_int;
  int_of_text = no_int;
  float_of_text = no_text;
  lt_of_ℕ = same_ltb;
  le_lt_trans = leb-ltb_trans;
}
