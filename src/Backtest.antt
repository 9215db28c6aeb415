-- ===== src/Backtest.antt =====
-- src/backtest/point_in_time.py: the filters that keep a backtest from seeing data before they were
-- there. A record is a dictionary of JSON values.
pub mod LookAhead
use data_service.Common.{
  ℕ, String, Bool, true, false, not, Option, none, some, List, [], ◌∷◌, if◌then◌else◌, Result, ok,
  err, ◌>>=◌,
}
use data_service.Common.Int.{ℤ, pos, ltb_ℤ, ◌+ℤ◌}
use data_service.Common.Value.{
  Numbers, PyError, Value, is_none, get_value, to_int, catching, type_error, value_error,
  overflow_error,
}

pub data Mode : Type 0 where
  backtest live : Mode

pub record BacktestContext : Type 0 where
  pub as_of_ts : ℤ
  pub mode : Mode

pub data RequestError : Type 0 where
  validation_error : RequestError

-- The dependency of the request handlers: the clock is read in live mode.
unfoldable pub backtest_context : ℤ → Option ℤ → Result RequestError BacktestContext
backtest_context now none =
    if ltb_ℤ (pos 0) now then ok (record { as_of_ts = now; mode = live }) else err validation_error
backtest_context now (some as_of) =
    if ltb_ℤ (pos 0) as_of
    then ok (record { as_of_ts = as_of; mode = backtest })
    else err validation_error

module _ (n : Numbers) where
  open n use {floats}

  abbrev pub Record : Type 0
  Record = List (String × Value floats.Carrier)

  -- Whether a time that is read off the record has passed: one that is missing or that cannot be read
  -- as a whole number has not.
  unfoldable pub has_passed : Value floats.Carrier → ℤ → ℤ → Result PyError Bool
  has_passed v offset as_of =
      if is_none v
      then ok false
      else catching (to_int n v) (λ ts. ok (not (ltb_ℤ as_of (ts +ℤ offset)))) (ok false)

  -- The loop of both filters, on a field of the records.
  pub filter_on : String → ℤ → ℤ → List Record → Result PyError (List Record)
  unfolding has_passed
  filter_on key offset as_of [] = ok []
  filter_on key offset as_of (r ∷ rs) = do
    keep ← has_passed (get_value key r) offset as_of
    rest ← filter_on key offset as_of rs
    ok (if keep then r ∷ rest else rest)

  unfoldable pub filter : List Record → ℤ → ℤ → Result PyError (List Record)
  unfolding filter_on
  filter records as_of offset =
      if ltb_ℤ offset (pos 0) then err value_error else filter_on "time" offset as_of records

  unfoldable pub filter_by_available_at : List Record → ℤ → Result PyError (List Record)
  unfolding filter_on
  filter_by_available_at records as_of = filter_on "availableAtMs" (pos 0) as_of records

  -- The handler of `is_look_ahead`: what cannot be read counts as a look-ahead.
  pub is_after : Value floats.Carrier → ℤ → Result PyError Bool
  is_after v as_of = catching (to_int n v) (λ ts. ok (ltb_ℤ as_of ts)) (ok true)

  unfoldable pub is_look_ahead : Record → ℤ → Result PyError Bool
  unfolding is_after
  is_look_ahead r as_of =
      let available = get_value "availableAtMs" r in
      let time = get_value "time" r in
      if is_none available
      then if is_none time then ok true else is_after time as_of
      else is_after available as_of
