-- ===== src/Deribit/Dates.antt =====
-- src/core/parsers/deribit_parser.py: expiry dates as time stamps, over the calendar that Python's
-- `datetime` uses, from 1970 to 9999.
use data_service.Common.{
  ℕ, zero, suc, ◌+◌, ◌-◌, ◌*◌, ◌/◌, ◌%◌, ◌≤◌, ◌<◌, ◌≡◌, refl, ap, ◌∙◌, Bool, true, false, ◌&&◌,
  ◌||◌, not, Option, none, some, List, [], ◌∷◌, ltb, leb, ◌==◌, if◌then◌else◌, arith, Bool-cases,
  Option-cases, inl, inr, lt→ltb,
}

is_leap : ℕ → Bool
is_leap y = y % 4 == 0 && (not (y % 100 == 0) || y % 400 == 0)

pub days_in_year : ℕ → ℕ
unfolding is_leap
days_in_year y = if is_leap y then 366 else 365

pub month_lengths : ℕ → List ℕ
unfolding is_leap
month_lengths y =
    31 ∷ (if is_leap y then 29 else 28) ∷ 31 ∷ 30 ∷ 31 ∷ 30 ∷ 31 ∷ 31 ∷ 30 ∷ 31 ∷ 30 ∷ 31 ∷ []

-- The lengths of the given number of years.
pub year_lengths : ℕ → ℕ → List ℕ
unfolding days_in_year
year_lengths y zero = []
year_lengths y (suc k) = days_in_year y ∷ year_lengths (suc y) k

-- The sum of the first lengths.
pub before : List ℕ → ℕ → ℕ
before ls zero = 0
before [] (suc i) = 0
before (l ∷ ls) (suc i) = l + before ls i

pub nth : List ℕ → ℕ → Option ℕ
nth [] i = none
nth (l ∷ ls) zero = some l
nth (l ∷ ls) (suc i) = nth ls i

-- Which of the periods a day is in, and how far.
pub locate : List ℕ → ℕ → ℕ × ℕ
locate [] n = (0, n)
locate (l ∷ ls) n =
    let later = locate ls (n - l) in if ltb n l then (0, n) else (suc later.0, later.1)

-- A day of a period is found in it.
lt→leb_sum : (a b c : ℕ) → ltb (a + b + c) a ≡ false
lt→leb_sum a b c = ground arith

plus_zero : (y : ℕ) → y + 0 ≡ y
plus_zero y = omega arith

plus_suc : (y i : ℕ) → y + suc i ≡ suc y + i
plus_suc y i = omega arith

pub locate-before :
    (ls : List ℕ) (i r l : ℕ) → nth ls i ≡ some l → r < l → locate ls (before ls i + r) ≡ (i, r)
unfolding locate before nth
locate-before [] i r l h k = ground arith
locate-before (m ∷ ls) zero r l h k = ground arith
locate-before (m ∷ ls) (suc i) r l h k =
    let e : m + before ls i + r - m ≡ before ls i + r = omega arith in
    rw (lt→leb_sum m (before ls i) r, e, locate-before ls i r l h k) refl

pub nth-year_lengths : (y k i : ℕ) → i < k → nth (year_lengths y k) i ≡ some (days_in_year (y + i))
unfolding nth year_lengths
nth-year_lengths y zero i h = absurd (omega arith)
nth-year_lengths y (suc k) zero h = rw (plus_zero y) refl
nth-year_lengths y (suc k) (suc i) h =
    rw (plus_suc y i) (nth-year_lengths (suc y) k i (omega arith))

pub years : List ℕ
years = year_lengths 1970 8030

-- `datetime.date(year, month, day)` raises unless the month has the day.
unfoldable pub is_date : ℕ → ℕ → ℕ → Bool
unfolding nth month_lengths
is_date year month day =
    leb 1 day
    && (leb 1 month
        && elim (nth (month_lengths year) (month - 1)) [ none ↦ false | some l ↦ leb day l ])

abbrev pub day_ms : ℕ
day_ms = 86400000

abbrev pub expiry_hour_ms : ℕ
expiry_hour_ms = 28800000

-- Days since 1970.
pub day_number : ℕ → ℕ → ℕ → ℕ
day_number year month day =
    before years (year - 1970) + (before (month_lengths year) (month - 1) + (day - 1))

-- `_expiry_ts`, of a date that is valid.
unfoldable pub expiry_ts : ℕ → ℕ → ℕ → ℕ
unfolding day_number
expiry_ts day month year_2digit =
    day_number (2000 + year_2digit) month day * day_ms + expiry_hour_ms

pub record Parts : Type 0 where
  pub day : ℕ
  pub month : ℕ
  pub full_year : ℕ

pub date_parts : ℕ → Option Parts
date_parts n =
    let (y, in_year) = locate years n in
    let (m, in_month) = locate (month_lengths (1970 + y)) in_year in
    if ltb y 8030
    then some (record { day = in_month + 1; month = m + 1; full_year = 1970 + y })
    else none

-- `_expiry_ts_to_parts`, of a time from 1970 on: `none` is the error after the year 9999.
unfoldable pub expiry_ts_to_parts : ℕ → Option Parts
unfolding date_parts
expiry_ts_to_parts ts = date_parts (ts / day_ms)

nth-years : (i : ℕ) → i < 8030 → nth years i ≡ some (days_in_year (1970 + i))
unfolding years
nth-years i h = nth-year_lengths 1970 8030 i h

total : List ℕ → ℕ
total [] = 0
total (l ∷ ls) = l + total ls

before-le-total : (ls : List ℕ) (i l : ℕ) → nth ls i ≡ some l → before ls i + l ≤ total ls
unfolding before nth total
before-le-total [] i l h = ground arith
before-le-total (m ∷ ls) zero l h = ground arith
before-le-total (m ∷ ls) (suc i) l h = omega (arith, before-le-total ls i l h)

total-month_lengths : (y : ℕ) → total (month_lengths y) ≡ days_in_year y
unfolding total month_lengths days_in_year
total-month_lengths y = elim (Bool-cases (is_leap y)) [
  | inl leap ↦ rw leap refl
  | inr common ↦ rw common refl
]

date_parts-day_number :
    (y m r l : ℕ)
    → y < 8030
    → nth (month_lengths (1970 + y)) m ≡ some l
    → r < l
    → date_parts (before years y + (before (month_lengths (1970 + y)) m + r))
      ≡ some (record { day = r + 1; month = m + 1; full_year = 1970 + y })
unfolding date_parts
date_parts-day_number y m r l h p k =
    let months = month_lengths (1970 + y) in
    let in_year = before months m + r in
    let short : in_year < days_in_year (1970 + y) =
      omega (arith, before-le-total months m l p, total-month_lengths (1970 + y)) in
    let located = locate-before years y in_year (days_in_year (1970 + y)) (nth-years y h) short in
    rw (located, locate-before months m r l p k, lt→ltb y 8030 h) refl

ts_to_days : (n : ℕ) → (n * day_ms + expiry_hour_ms) / day_ms ≡ n
ts_to_days n = omega arith

parts_eq :
    {d d' m m' y y' : ℕ}
    → d ≡ d'
    → m ≡ m'
    → y ≡ y'
    → ◌≡◌ {A = Parts}
        (record { day = d; month = m; full_year = y })
        (record { day = d'; month = m'; full_year = y' })
parts_eq p q r = λ i. record { day = p i; month = q i; full_year = r i }

is_date_cases :
    (year month day : ℕ)
    → is_date year month day ≡ true
    → (l : ℕ) × (1 ≤ day)
      × (1 ≤ month)
      × (nth (month_lengths year) (month - 1) ≡ some l)
      × (day ≤ l)
unfolding is_date
is_date_cases year month day h = elim (Option-cases (nth (month_lengths year) (month - 1))) [
  | inl e ↦ absurd (ground arith)
  | inr (l, e) ↦ (l, ground arith, ground arith, e, ground arith)
]

day_number-eq :
    (day month yy : ℕ)
    → day_number (2000 + yy) month day
      ≡ before years (30 + yy) + (before (month_lengths (1970 + (30 + yy))) (month - 1) + (day - 1))
unfolding day_number
day_number-eq day month yy =
    let shift : 2000 + yy - 1970 ≡ 30 + yy = omega arith in
    let year : 1970 + (30 + yy) ≡ 2000 + yy = omega arith in rw (shift, year) refl

-- The date of an expiry is read back from its time stamp.
pub expiry_ts_to_parts-expiry_ts :
    (day month yy : ℕ)
    → yy < 100
    → is_date (2000 + yy) month day ≡ true
    → expiry_ts_to_parts (expiry_ts day month yy)
      ≡ some (record { day = day; month = month; full_year = 2000 + yy })
unfolding expiry_ts_to_parts expiry_ts
expiry_ts_to_parts-expiry_ts day month yy h valid =
    let (l, d, m, p, k) = is_date_cases (2000 + yy) month day valid in
    let year : 1970 + (30 + yy) ≡ 2000 + yy = omega arith in
    let same_day : day - 1 + 1 ≡ day = omega arith in
    let same_month : month - 1 + 1 ≡ month = omega arith in
    let found =
      date_parts-day_number (30 + yy) (month - 1) (day - 1) l (omega arith) (rw year p)
        (omega arith) in
    ap date_parts (ts_to_days (day_number (2000 + yy) month day) ∙ day_number-eq day month yy)
    ∙ found
    ∙ ap some (parts_eq same_day same_month year)
