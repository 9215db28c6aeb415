-- ===== src/Validators/Ohlcv.antt =====
-- src/core/validators/ohlcv.py: the price-bar invariants of a candle. Prices are floats behind the
-- interface `Floats`; how `float(text)` reads a text is a parameter.
pub mod Correct
use data_service.Common.{
  String, Bool, true, false, not, ◌&&◌, Option, none, some, List, [], ◌∷◌, ◌++◌, if◌then◌else◌,
  Result, ok, err, String_discrete, str_eq, map,
}
use data_service.Common.Dict
use data_service.Common.Float.{Floats}

pub data Field : Type 0 where
  open_price high low close volume : Field

-- The keys of `_INVARIANT_LABELS`, and `missing_field:…`.
pub data Violation : Type 0 where
  missing_field gt_zero : Field → Violation
  high_ge_max_open_close low_le_min_open_close volume_non_negative : Violation

pub data ValidatorError : Type 0 where
  unsupported_interval : ValidatorError

-- What a field of the candle dictionary holds; `other` is a value that `float` refuses.
pub data Value (A : Type 0) : Type 0 where
  none_value other : Value A
  number : A → Value A
  text : String → Value A

pub record Candle (A : Type 0) : Type 0 where
  pub open_price : Value A
  pub high : Value A
  pub low : Value A
  pub close : Value A
  pub volume : Value A

-- The incident, without its identifier, its severity and its time stamps.
pub record Incident (A : Type 0) : Type 0 where
  pub instrument_id : String
  pub provider : String
  pub interval_str : String
  pub failed_invariants : List Violation
  pub rejected_values : List (String × Value A)

-- What the caller passes beside the candle.
pub record Context : Type 0 where
  pub provider : String
  pub instrument_id : String
  pub interval : String
  pub is_indian_market : Bool

make_incident : {A : Type 0} → Context → List Violation → List (String × Value A) → Incident A
make_incident ctx failed rejected = record {
  instrument_id = ctx.instrument_id;
  provider = ctx.provider;
  interval_str = ctx.interval;
  failed_invariants = failed;
  rejected_values = rejected;
}

module _ (f : Floats) where
  open f use {Carrier, origin, lt}

  -- Python's `max(a, b)` and `min(a, b)`.
  unfoldable pub max_float : Carrier → Carrier → Carrier
  max_float a b = if lt a b then b else a

  unfoldable pub min_float : Carrier → Carrier → Carrier
  min_float a b = if lt b a then b else a

  unfoldable pub to_float : (String → Option Carrier) → Value Carrier → Option Carrier
  to_float parse none_value = none
  to_float parse other = none
  to_float parse (number x) = some x
  to_float parse (text t) = parse t

  missing_if : Field → Option Carrier → List Field
  missing_if k none = k ∷ []
  missing_if k (some x) = []

  -- The keys of the prices that cannot be read, in the order of the source.
  missing_fields : (o h l c : Option Carrier) → List Field
  unfolding missing_if
  missing_fields o h l c =
      missing_if open_price o ++ (missing_if high h ++ (missing_if low l ++ missing_if close c))

  abbrev when {ℓ} : {A : Type ℓ} → Bool → A → List A
  when b a = if b then a ∷ [] else []

  is_negative : Option Carrier → Bool
  is_negative none = false
  is_negative (some v) = lt v origin

  -- The invariants that the four prices and the volume break, in the order of the source.
  unfoldable pub failed_checks : (o h l c : Carrier) → Option Carrier → List Violation
  unfolding max_float min_float is_negative
  failed_checks o h l c v =
      when (not (lt origin o)) (gt_zero open_price)
      ++ (when (not (lt origin h)) (gt_zero high)
          ++ (when (not (lt origin l)) (gt_zero low)
              ++ (when (not (lt origin c)) (gt_zero close)
                  ++ (when (lt h (max_float o c)) high_ge_max_open_close
                      ++ (when (lt (min_float o c) l) low_le_min_open_close
                          ++ when (is_negative v) volume_non_negative)))))

  put_if : Bool → String → Carrier → List (String × Value Carrier) → List (String × Value Carrier)
  put_if b key x d = if b then Dict.put String_discrete key (number x) d else d

  put_volume : Option Carrier → List (String × Value Carrier) → List (String × Value Carrier)
  unfolding put_if
  put_volume none d = d
  put_volume (some v) d = put_if (lt v origin) "volume" v d

  -- The `rejected_values` of the checks, written in the order of the source.
  rejected_checks : (o h l c : Carrier) → Option Carrier → List (String × Value Carrier)
  unfolding put_if put_volume max_float min_float
  rejected_checks o h l c v =
      let top = max_float o c in
      let bottom = min_float o c in
      let opens = put_if (not (lt origin o)) "open" o [] in
      let highs = put_if (not (lt origin h)) "high" h opens in
      let lows = put_if (not (lt origin l)) "low" l highs in
      let closes = put_if (not (lt origin c)) "close" c lows in
      let above = put_if (lt h top) "max_open_close" top (put_if (lt h top) "high" h closes) in
      let below =
        put_if (lt bottom l) "min_open_close" bottom (put_if (lt bottom l) "low" l above) in
      put_volume v below

  field_name : Field → String
  field_name open_price = "open"
  field_name high = "high"
  field_name low = "low"
  field_name close = "close"
  field_name volume = "volume"

  field_of : Candle Carrier → Field → Value Carrier
  field_of b open_price = b.open_price
  field_of b high = b.high
  field_of b low = b.low
  field_of b close = b.close
  field_of b volume = b.volume

  report : Context → List Violation → List (String × Value Carrier) → Option (Incident Carrier)
  unfolding make_incident
  report ctx [] rejected = none
  report ctx (x ∷ failed) rejected = some (make_incident ctx (x ∷ failed) rejected)

  check_prices : Context → Candle Carrier → (o h l c v : Option Carrier) → Option (Incident Carrier)
  unfolding report failed_checks rejected_checks missing_fields make_incident field_of field_name
  check_prices ctx b (some o) (some h) (some l) (some c) v =
      report ctx (failed_checks o h l c v) (rejected_checks o h l c v)
  check_prices ctx b o h l c v =
      let missing = missing_fields o h l c in
      some (
        make_incident ctx (map missing_field missing)
          (map (λ k. (field_name k, field_of b k)) missing))

  -- `(True, None)` is `none`, `(False, incident)` is `some incident`.
  unfoldable pub validate_ohlcv_invariants :
      (String → Option Carrier)
      → Context
      → Candle Carrier
      → Result ValidatorError (Option (Incident Carrier))
  unfolding to_float check_prices
  validate_ohlcv_invariants parse ctx b =
      if ctx.is_indian_market && str_eq ctx.interval "3m"
      then err unsupported_interval
      else ok (
          check_prices ctx b (to_float parse b.open_price) (to_float parse b.high)
            (to_float parse b.low) (to_float parse b.close) (to_float parse b.volume))
