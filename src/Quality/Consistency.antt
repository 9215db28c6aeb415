-- ===== src/Quality/Consistency.antt =====
-- src/engines/quality_engine.py: what `DataQualityGate` finds wrong with the time stamp and the prices
-- of a dataset.
use data_service.Common.{ℕ, String, Bool, ◌||◌, List, [], ◌∷◌, ◌++◌, if◌then◌else◌, Result, ok}
use data_service.Common.Int.{ℤ, pos, ltb_ℤ, ◌+ℤ◌}
use data_service.Common.Value.{
  Numbers, PyError, Value, is_none, get_value, to_int, to_float, catching,
}
use data_service.Validators.Ohlcv.{max_float, min_float}

-- `_TIMESTAMP_MAX_AGE_MS`: thirty days.
abbrev pub timestamp_max_age_ms : ℕ
timestamp_max_age_ms = 2592000000

abbrev pub timestamp_future_tolerance_ms : ℕ
timestamp_future_tolerance_ms = 60000

-- What is wrong with the time stamp or the prices.
pub data Failure (A : Type 0) : Type 0 where
  not_positive too_old in_future : ℤ → Failure A
  not_an_integer : Value A → Failure A
  price_not_positive : String → A → Failure A
  high_too_low low_too_high : Failure A
  negative_volume : A → Failure A
  field_type_error : Value A → Failure A

abbrev pub when {ℓ} : {A : Type ℓ} → Bool → A → List A
when b a = if b then a ∷ [] else []

module _ (n : Numbers) where
  open n use {floats}

  abbrev pub Data : Type 0
  Data = List (String × Value floats.Carrier)

  unfoldable pub range_failures : ℤ → ℤ → List (Failure floats.Carrier)
  range_failures now ts =
      if ltb_ℤ (pos 0) ts
      then when (ltb_ℤ (ts +ℤ pos timestamp_max_age_ms) now) (too_old ts)
        ++ when (ltb_ℤ (now +ℤ pos timestamp_future_tolerance_ms) ts) (in_future ts)
      else not_positive ts ∷ []

  unfoldable pub timestamp_failures :
      ℤ → Value floats.Carrier → Result PyError (List (Failure floats.Carrier))
  unfolding range_failures
  timestamp_failures now raw =
      if is_none raw
      then ok []
      else catching (to_int n raw) (λ ts. ok (range_failures now ts)) (ok (not_an_integer raw ∷ []))

  unfoldable pub price_failures : (o h l c : floats.Carrier) → List (Failure floats.Carrier)
  unfolding max_float min_float
  price_failures o h l c =
      when (n.le o floats.origin) (price_not_positive "open" o)
      ++ (when (n.le h floats.origin) (price_not_positive "high" h)
          ++ (when (n.le l floats.origin) (price_not_positive "low" l)
              ++ (when (n.le c floats.origin) (price_not_positive "close" c)
                  ++ (when (floats.lt h (max_float floats o c)) high_too_low
                      ++ when (floats.lt (min_float floats o c) l) low_too_high))))

  -- `float(v)` under the handler, which ends the checks with one more failure.
  abbrev pub convert :
      List (Failure floats.Carrier)
      → Value floats.Carrier
      → (floats.Carrier → Result PyError (List (Failure floats.Carrier)))
      → Result PyError (List (Failure floats.Carrier))
  convert found v k = catching (to_float n v) k (ok (found ++ field_type_error v ∷ []))

  unfoldable pub volume_failures :
      List (Failure floats.Carrier)
      → Value floats.Carrier
      → Result PyError (List (Failure floats.Carrier))
  volume_failures found volume =
      if is_none volume
      then ok found
      else convert found volume
          λ v. ok (found ++ when (floats.lt v floats.origin) (negative_volume v))

  -- The prices are checked only if all four are there.
  unfoldable pub ohlcv_failures :
      List (Failure floats.Carrier) → Data → Result PyError (List (Failure floats.Carrier))
  unfolding volume_failures price_failures
  ohlcv_failures found d =
      let o = get_value "open" d in
      let h = get_value "high" d in
      let l = get_value "low" d in
      let c = get_value "close" d in
      let volume = get_value "volume" d in
      if is_none o || (is_none h || (is_none l || is_none c))
      then volume_failures found volume
      else convert found o λ x. convert found h λ y.
        convert found l
          λ z. convert found c λ w. volume_failures (found ++ price_failures x y z w) volume
