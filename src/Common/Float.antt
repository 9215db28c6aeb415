-- ===== src/Common/Float.antt =====
-- Python's `float`, as far as the program compares prices: an interface, since antt has no floats.
-- The laws are those of IEEE 754 comparison, NaN included: every comparison with NaN is false, so
-- only a value that is above `origin` (the number 0.0) is known to be a number.
use mathlib.Core.Path.{◌≡◌}
use mathlib.Core.Logic.{◌⊎◌}
use mathlib.Core.Bool.{Bool, true, false}

pub record Floats : Type 1 where
  pub Carrier : Type 0
  pub origin : Carrier
  pub infinity : Carrier
  pub lt : Carrier → Carrier → Bool
  pub lt_irrefl : (a : Carrier) → lt a a ≡ false
  pub lt_trans : (a b c : Carrier) → lt a b ≡ true → lt b c ≡ true → lt a c ≡ true
  pub lt_cut :
      (a b c : Carrier) → lt a b ≡ true → lt origin c ≡ true → (lt a c ≡ true) ⊎ (lt c b ≡ true)
