-- ===== src/Common/Value.antt =====
-- The values of a dictionary that comes from JSON, and what the built-in conversions of Python make
-- of them. Floating point is an interface: its operations are Python's, its laws those of IEEE 754
-- comparison and of small whole numbers.
use Prim.Native.Nat.{◌≤◌, ℕ}
use Prim.Native.String.{String}
use mathlib.Core.Path.{◌≡◌}
use mathlib.Core.Bool.{Bool, true, false, not}
use mathlib.Core.Option.{Option, none, some}
use mathlib.Core.List.{List}
use data_service.Common.Tests.{Result, ok, err, ltb, if◌then◌else◌, ◌==◌}
use data_service.Common.Int.{ℤ, pos, negsuc}
use data_service.Common.Float.{Floats}
use data_service.Common.Text.{String_discrete}
use data_service.Common.Dict

-- The errors of the conversions. `TypeError` and `ValueError` are caught together everywhere.
pub data PyError : Type 0 where
  type_error value_error overflow_error : PyError

pub record Numbers : Type 1 where
  pub floats : Floats
  pub le : floats.Carrier → floats.Carrier → Bool
  pub is_nonzero : floats.Carrier → Bool
  pub mul : floats.Carrier → floats.Carrier → floats.Carrier
  pub sub : floats.Carrier → floats.Carrier → floats.Carrier
  pub div : floats.Carrier → floats.Carrier → floats.Carrier
  pub abs : floats.Carrier → floats.Carrier
  -- `0.25`
  pub quarter : floats.Carrier
  pub of_ℕ : ℕ → floats.Carrier
  -- `int(x)`: `ValueError` at NaN, `OverflowError` at an infinity.
  pub int_of_float : floats.Carrier → Result PyError ℤ
  -- `float(n)`: `OverflowError` beyond the largest float.
  pub float_of_int : ℤ → Result PyError floats.Carrier
  pub int_of_text : String → Option ℤ
  pub float_of_text : String → Option floats.Carrier
  -- Whole numbers up to 2 ^ 53 are exact.
  pub lt_of_ℕ :
      (a b : ℕ)
      → a ≤ 9007199254740992
      → b ≤ 9007199254740992
      → floats.lt (of_ℕ a) (of_ℕ b) ≡ ltb a b
  pub le_lt_trans :
      (a b c : floats.Carrier) → le a b ≡ true → floats.lt b c ≡ true → floats.lt a c ≡ true

-- `composite` is a list or a dictionary, with its truth value.
pub data Value (A : Type 0) : Type 0 where
  none_value : Value A
  flag : Bool → Value A
  whole : ℤ → Value A
  real : A → Value A
  text : String → Value A
  composite : Bool → Value A

abbrev pub is_none : {A : Type 0} → Value A → Bool
is_none none_value = true
is_none v = false

of_option {ℓ} : {A : Type ℓ} → Option A → Result PyError A
of_option none = err value_error
of_option (some x) = ok x

bit : Bool → ℤ
bit true = pos 1
bit false = pos 0

is_zero : ℤ → Bool
is_zero (pos n) = n == 0
is_zero (negsuc n) = false

is_empty_text : String → Bool
is_empty_text String.[] = true
is_empty_text (String.◌∷◌ c s) = false

-- `data.get(key)`
unfoldable pub get_value : {A : Type 0} → String → List (String × Value A) → Value A
get_value key d = elim (Dict.get String_discrete key d) [ none ↦ none_value | some v ↦ v ]

module _ (n : Numbers) where
  open n use {floats}

  -- `int(v)`
  unfoldable pub to_int : Value floats.Carrier → Result PyError ℤ
  unfolding of_option bit
  to_int none_value = err type_error
  to_int (flag b) = ok (bit b)
  to_int (whole z) = ok z
  to_int (real x) = n.int_of_float x
  to_int (text s) = of_option (n.int_of_text s)
  to_int (composite b) = err type_error

  -- `float(v)`
  unfoldable pub to_float : Value floats.Carrier → Result PyError floats.Carrier
  unfolding of_option bit
  to_float none_value = err type_error
  to_float (flag b) = n.float_of_int (bit b)
  to_float (whole z) = n.float_of_int z
  to_float (real x) = ok x
  to_float (text s) = of_option (n.float_of_text s)
  to_float (composite b) = err type_error

  -- `bool(v)`
  unfoldable pub truth : Value floats.Carrier → Bool
  unfolding is_zero is_empty_text
  truth none_value = false
  truth (flag b) = b
  truth (whole z) = not (is_zero z)
  truth (real x) = n.is_nonzero x
  truth (text s) = not (is_empty_text s)
  truth (composite b) = b

  -- `a or b`
  unfoldable pub either_value : Value floats.Carrier → Value floats.Carrier → Value floats.Carrier
  unfolding truth
  either_value a b = if truth a then a else b

-- `except (TypeError, ValueError)`: the handler's value, or an error that passes it.
abbrev pub catching {ℓ κ} :
    {A : Type ℓ} {B : Type κ}
    → Result PyError A
    → (A → Result PyError B)
    → Result PyError B
    → Result PyError B
catching (ok a) k handler = k a
catching (err type_error) k handler = handler
catching (err value_error) k handler = handler
catching (err overflow_error) k handler = err overflow_error
