-- ===== src/Deribit/Names/Readers.antt =====
-- Each reader of a name reads back what the writer puts there.
use data_service.Common.{
  ℕ, suc, ◌+◌, ◌*◌, ◌/◌, ◌%◌, ◌≤◌, ◌<◌, ◌≡◌, refl, subst, Bool, true, false, ◌&&◌, Option, none,
  some, List, [], ◌∷◌, ◌++◌, map, length, arith, Bool-cases, inl, inr, append_assoc,
}
use data_service.Common.Case.{upper_code, same_codes}
use data_service.Deribit.Names.{
  Text, Python, OptionType, ce, pe, month_number, month_name, is_upper, span, read_two, read_three,
  read_currency, read_strike, read_type, two_digits, type_letter, is_digit, after_whole,
  strike_from, ◌>>=?◌,
}

unfoldable pub every : (ℕ → Bool) → Text → Bool
every p [] = true
every p (c ∷ t) = p c && every p t

pub >>=?-eq-some {ℓ κ} :
    {A : Type ℓ} {B : Type κ} (m : Option A) (k : A → Option B) {b : B}
    → (m >>=? k) ≡ some b
    → (a : A) × (m ≡ some a) × (k a ≡ some b)
>>=?-eq-some none k h = absurd (ground arith)
>>=?-eq-some (some a) k h = (a, refl, h)

span-every : (p : ℕ → Bool) (t : Text) → every p (span p t).0 ≡ true
unfolding span every
span-every p [] = refl
span-every p (c ∷ t) = elim (Bool-cases (p c)) [
  | inl e ↦ rw e (rw e (span-every p t))
  | inr e ↦ rw e refl
]

span-append :
    (p : ℕ → Bool) (xs : Text) (y : ℕ) (r : Text)
    → every p xs ≡ true
    → p y ≡ false
    → span p (xs ++ (y ∷ r)) ≡ (xs, y ∷ r)
unfolding span every
span-append p [] y r h e = rw e refl
span-append p (x ∷ xs) y r h e = elim (Bool-cases (p x)) [
  | inl f ↦ rw (f, span-append p xs y r (rw f at h) e) refl
  | inr f ↦ absurd (ground arith)
]

same_codes-eq : (a b : Text) → same_codes a b ≡ true → a ≡ b
unfolding same_codes
same_codes-eq [] [] h = refl
same_codes-eq [] (y ∷ ys) h = cc
same_codes-eq (x ∷ xs) [] h = cc
same_codes-eq (x ∷ xs) (y ∷ ys) h = ground (arith, same_codes-eq xs ys)

pub month_name-month_number :
    (k : ℕ) (ms : List Text) (t : Text) (m : ℕ)
    → month_number k ms t ≡ some m
    → (k ≤ m) × (month_name k ms m ≡ some t)
unfolding month_number month_name
month_name-month_number k [] t m h = absurd (ground arith)
month_name-month_number k (a ∷ ms) t m h = elim (Bool-cases (same_codes a t)) [
  | inl e ↦ ground (arith, same_codes-eq a t e)
  | inr e ↦ ground (arith, month_name-month_number (suc k) ms t m)
]

pub upper-id : (t : Text) → every is_upper t ≡ true → map upper_code t ≡ t
unfolding every is_upper upper_code
upper-id [] h = refl
upper-id (c ∷ t) h = ground (arith, upper-id t)

module _ (py : Python) where
  open py use {Strike, digit}

  -- A strike's text: digits, then maybe a dot and digits.
  pub data IsPlain : Text → Type 0 where
    whole : (d : ℕ) (ds : Text) → every (is_digit py) (d ∷ ds) ≡ true → IsPlain (d ∷ ds)
    decimal :
        (d e : ℕ) (ds es : Text)
        → every (is_digit py) (d ∷ ds) ≡ true
        → every (is_digit py) (e ∷ es) ≡ true
        → IsPlain ((d ∷ ds) ++ (b'.' ∷ (e ∷ es)))

  dash_digit : is_digit py b'-' ≡ false
  unfolding is_digit
  dash_digit = rw (py.digit_dash, is_digit) refl

  dot_digit : is_digit py b'.' ≡ false
  unfolding is_digit
  dot_digit = rw (py.digit_dot, is_digit) refl

  pub read_strike-plain :
      (s r : Text) → IsPlain s → read_strike py (s ++ (b'-' ∷ r)) ≡ some (s, b'-' ∷ r)
  unfolding read_strike strike_from after_whole
  read_strike-plain _ r (whole d ds h) =
      rw (span-append (is_digit py) (d ∷ ds) b'-' r h dash_digit) refl
  read_strike-plain _ r (decimal d e ds es h k) =
      rw (append_assoc (d ∷ ds) (b'.' ∷ (e ∷ es)) (b'-' ∷ r)) (
        rw (span-append (is_digit py) (d ∷ ds) b'.' ((e ∷ es) ++ (b'-' ∷ r)) h dot_digit)
          (rw (span-append (is_digit py) (e ∷ es) b'-' r k dash_digit) refl))

  pub two_digits-read :
      (k : ℕ) (r : Text) → k < 100 → read_two py (two_digits py k ++ r) ≡ some (k, r)
  unfolding read_two two_digits
  two_digits-read k r h =
      let tens : k / 10 * 10 + k % 10 ≡ k = omega arith in
      rw (py.digit_ascii (k / 10) (omega arith), py.digit_ascii (k % 10) (omega arith), tens) refl

  pub read_two-lt : (t r : Text) (k : ℕ) → read_two py t ≡ some (k, r) → k < 100
  unfolding read_two
  read_two-lt [] r k h = absurd (ground arith)
  read_two-lt (a ∷ []) r k h = absurd (ground arith)
  read_two-lt (a ∷ (b ∷ t)) r k h =
      let (x, p, h1) = >>=?-eq-some (digit a) _ h in
      let (y, q, h2) = >>=?-eq-some (digit b) _ h1 in
      ground (arith, py.digit_lt a x, py.digit_lt b y)

  pub read_three-append :
      (t m r q : Text) → read_three py t ≡ some (m, r) → read_three py (m ++ q) ≡ some (m, q)
  unfolding read_three
  read_three-append (a ∷ (b ∷ (c ∷ t))) m r q h =
      elim (Bool-cases (is_upper a && (is_upper b && is_upper c))) [
        | inl e ↦
            let same : (a ∷ b ∷ c ∷ []) ≡ m = ground arith in
            subst (λ x. read_three py (x ++ q) ≡ some (x, q)) same (rw e refl)
        | inr e ↦ absurd (ground arith)
      ]
  read_three-append [] m r q h = absurd (ground arith)
  read_three-append (a ∷ []) m r q h = absurd (ground arith)
  read_three-append (a ∷ (b ∷ [])) m r q h = absurd (ground arith)

  -- What the pattern takes as a currency.
  abbrev pub IsCurrency : Text → Type 0
  IsCurrency t = (every is_upper t ≡ true) × (2 ≤ length t) × (length t ≤ 6)

  pub read_currency-IsCurrency :
      (t name r : Text) → read_currency py t ≡ some (name, r) → IsCurrency name
  unfolding read_currency
  read_currency-IsCurrency t name r h =
      let upper = span-every is_upper t in
      let same : (span is_upper t).0 ≡ name = ground arith in
      subst IsCurrency same (upper, ground arith, ground arith)

  pub read_currency-append :
      (name r : Text)
      → IsCurrency name
      → read_currency py (name ++ (b'-' ∷ r)) ≡ some (name, b'-' ∷ r)
  unfolding read_currency is_upper
  read_currency-append name r (h, low, high) =
      rw (span-append is_upper name b'-' r h refl) (ground arith)

  pub read_type-letter : (o : OptionType) → read_type py (type_letter py o ∷ []) ≡ some o
  unfolding read_type type_letter
  read_type-letter ce = refl
  read_type-letter pe = refl
