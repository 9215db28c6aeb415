-- ===== src/Tests/Validation.antt =====
-- The validators at concrete inputs; prices are whole numbers.
use data_service.Common.{
  ℕ, ◌+◌, ◌-◌, ◌*◌, ◌/◌, leb, List, ◌≤◌, ◌≡◌, ◌↔◌, refl, not, map, true, false, ltb, Option, none,
  some, [], ◌∷◌, ok, arith, String, String_discrete, ◌⊎◌,
}
use data_service.Common.Dict
use data_service.Common.Float.{Floats}
use data_service.Validators.Ohlcv.{Candle, number, Context, validate_ohlcv_invariants, to_float}
use data_service.Validators.Ohlcv.Correct.{is_blocked, ReadsAsBar, validate-accepts_iff}
use native.Mathlib.Nat.{mul-div_cancel}
use data_service.Validators.Gaps.{FloatTimes, detect_candle_gaps, interval_seconds}
use data_service.Validators.Gaps.Exact.{IsExact}
use data_service.Validators.Gaps.Counting.{series, gaps_of, detect-series}
use data_service.Validators.Dedup.{DedupStore, check_and_record, hour}
use data_service.Validators.Dedup.Validity.{IsValid}
use data_service.Validators.Dedup.Window.{check_and_record-duplicate}

pub ltb_irrefl : (a : ℕ) → ltb a a ≡ false
ltb_irrefl a = ground arith

pub ltb_trans : (a b c : ℕ) → ltb a b ≡ true → ltb b c ≡ true → ltb a c ≡ true
ltb_trans a b c h k = ground arith

pub ltb_cut : (a b c : ℕ) → ltb a b ≡ true → ltb 0 c ≡ true → (ltb a c ≡ true) ⊎ (ltb c b ≡ true)
ltb_cut a b c h k = ground arith

-- Whole numbers meet the laws that are asked of floats.
abbrev pub whole_floats : Floats
whole_floats = record {
  Carrier = ℕ;
  origin = 0;
  infinity = 1000000;
  lt = ltb;
  lt_irrefl = ltb_irrefl;
  lt_trans = ltb_trans;
  lt_cut = ltb_cut;
}

abbrev pub no_text : String → Option ℕ
no_text s = none

abbrev pub context : Context
context = record {
  provider = "upstox";
  instrument_id = "NSE:NIFTY:IDX";
  interval = "5m";
  is_indian_market = true;
}

abbrev bar : Candle ℕ
bar = record {
  open_price = number 100;
  high = number 110;
  low = number 90;
  close = number 105;
  volume = number 7;
}

abbrev bad_bar : Candle ℕ
bad_bar = record bar { high = number 101 }

validate-accepts_iff_example :
    (validate_ohlcv_invariants whole_floats no_text context bar ≡ ok none)
    ↔ ((is_blocked whole_floats context ≡ false) × ReadsAsBar whole_floats no_text bar)
validate-accepts_iff_example = validate-accepts_iff whole_floats no_text context bar

bad_bar-no_bar : ¬ ReadsAsBar whole_floats no_text bad_bar
unfolding to_float
bad_bar-no_bar = λ h. ground arith

pub context-free : is_blocked whole_floats context ≡ false
context-free = refl

minute-known : Dict.get String_discrete "1m" interval_seconds ≡ some 60
unfolding Dict.get String_discrete
minute-known = refl

-- Whole numbers in the place of floats.
abbrev whole_times : FloatTimes
whole_times = record {
  Carrier = ℕ;
  of_int = λ k. k;
  add = λ a b. a + b;
  sub = λ a b. a - b;
  mul = λ a b. a * b;
  div = λ a b. a / b;
  le = leb;
  to_int = λ a. a;
  floor = λ a. a;
  epsilon = 0;
}

whole_times-IsExact : IsExact whole_times
whole_times-IsExact = record {
  div_1000 = λ k h. mul-div_cancel k {n = 1000} (omega arith);
  sub_whole = λ a b le small. refl;
  add_whole = λ a b small. refl;
  mul_whole = λ a b small. refl;
  le_whole = λ a b small small'. refl;
  to_int_whole = λ a small. refl;
  floor_whole = λ k b pos small. omega (arith, mul-div_cancel k {n = b} pos);
}

-- One candle missing, then none, then seven.
abbrev holed : List ℕ
holed = series 60 1700000000 (1 ∷ 0 ∷ 7 ∷ [])

detect-series_example :
    (detect_candle_gaps whole_times (map some holed) "1m"
      ≡ ok (gaps_of "1m" 60 1700000000 (1 ∷ 0 ∷ 7 ∷ [])))
    × (detect_candle_gaps whole_times (map (λ u. some (u * 1000)) holed) "1m"
        ≡ ok (gaps_of "1m" 60 1700000000 (1 ∷ 0 ∷ 7 ∷ [])))
detect-series_example =
    detect-series whole_times whole_times-IsExact "1m" 60 1700000000 (1 ∷ 0 ∷ 7 ∷ []) minute-known
      (omega arith) (omega arith) (omega arith)
      (omega arith, (omega arith, (omega arith, (omega arith, tt))))

abbrev store : DedupStore
store = record {
  seen = ("a", 1000) ∷ [];
  order = record { dedup_hash = "a"; recorded_at = 1000 } ∷ [];
}

store-IsValid : IsValid store
unfolding Dict.get
store-IsValid = record { same = refl; distinct = (refl, tt); sorted = (tt, tt) }

check_and_record-duplicate_example :
    (((check_and_record 2000 "a" 24 store).1 ≡ true)
      ↔ ((at : ℕ) × (Dict.get String_discrete "a" store.seen ≡ some at) × (2000 ≤ at + 24 * hour)))
    × ((check_and_record 2000 "a" 24 store).2 ≡ not (check_and_record 2000 "a" 24 store).1)
check_and_record-duplicate_example = check_and_record-duplicate 2000 24 "a" store store-IsValid

b-new : (check_and_record 2000 "b" 24 store).1 ≡ false
unfolding check_and_record Dict.get String_discrete
b-new = refl
