-- ===== src/Validators/Gaps/Exact.antt =====
-- What the detector relies on of Python's floats: whole numbers below 2^53 are reckoned exactly.
use data_service.Common.{ℕ, ◌+◌, ◌-◌, ◌*◌, ◌≤◌, ◌<◌, ◌≡◌, leb}
use data_service.Validators.Gaps.{FloatTimes}

abbrev pub exact_limit : ℕ
exact_limit = 9007199254740992

-- IEEE 754: a result that is a whole number below 2^53 is not rounded. A quotient that is the whole
-- number k becomes at most a little more than k when 1e-9 is added.
pub record IsExact (n : FloatTimes) : Type 0 where
  pub div_1000 :
      (k : ℕ) → k * 1000 < exact_limit → n.div (n.of_int (k * 1000)) (n.of_int 1000) ≡ n.of_int k
  pub sub_whole :
      (a b : ℕ) → b ≤ a → a < exact_limit → n.sub (n.of_int a) (n.of_int b) ≡ n.of_int (a - b)
  pub add_whole :
      (a b : ℕ) → a + b < exact_limit → n.add (n.of_int a) (n.of_int b) ≡ n.of_int (a + b)
  pub mul_whole :
      (a b : ℕ) → a * b < exact_limit → n.mul (n.of_int a) (n.of_int b) ≡ n.of_int (a * b)
  pub le_whole :
      (a b : ℕ) → a < exact_limit → b < exact_limit → n.le (n.of_int a) (n.of_int b) ≡ leb a b
  pub to_int_whole : (a : ℕ) → a < exact_limit → n.to_int (n.of_int a) ≡ a
  pub floor_whole :
      (k b : ℕ)
      → 0 < b
      → k * b < exact_limit
      → n.floor (n.add (n.div (n.of_int (k * b)) (n.of_int b)) n.epsilon) ≡ k
