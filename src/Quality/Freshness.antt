-- ===== src/Quality/Freshness.antt =====
-- src/engines/quality_engine.py: `FreshnessClassifier`. Times are whole microseconds, the event time
-- of a live quote whole milliseconds, and thresholds whole seconds.
pub mod Ageing
use data_service.Common.{
  ℕ, ◌+◌, ◌-◌, ◌*◌, ◌/◌, String, Bool, true, false, ◌&&◌, Option, none, some, List, [], ◌∷◌, leb,
  if◌then◌else◌, String_discrete, Result, ok, err, map,
}
use data_service.Common.Dict
use data_service.Common.Case.{codes, lower, upper, same_codes}

pub data FreshnessStatus : Type 0 where
  fresh ageing stale expired unknown : FreshnessStatus

pub data ClassifierError : Type 0 where
  value_error : ClassifierError

-- `_LiveTierThresholds` and `_IntervalThresholds`; the classifiers read no `expired_sec`.
pub record Thresholds : Type 0 where
  pub fresh_sec : ℕ
  pub stale_sec : ℕ

abbrev pub limits : ℕ → ℕ → Thresholds
limits f s = record { fresh_sec = f; stale_sec = s }

abbrev pub Table : Type 0
Table = List (String × Thresholds)

abbrev pub live_thresholds_regular : Table
live_thresholds_regular =
    ("INDEX", limits 10 60)
    ∷ ("FO_LIQUID", limits 10 60)
    ∷ ("FO_NORMAL", limits 15 90)
    ∷ ("EQUITY", limits 30 120)
    ∷ []

abbrev pub live_thresholds_non_regular : Table
live_thresholds_non_regular =
    ("INDEX", limits 60 300)
    ∷ ("FO_LIQUID", limits 60 300)
    ∷ ("FO_NORMAL", limits 90 450)
    ∷ ("EQUITY", limits 120 600)
    ∷ []

abbrev pub india_interval_thresholds : Table
india_interval_thresholds =
    ("1m", limits 120 600)
    ∷ ("5m", limits 420 1800)
    ∷ ("10m", limits 600 3000)
    ∷ ("15m", limits 1200 3600)
    ∷ ("30m", limits 2400 5400)
    ∷ ("1h", limits 4200 10800)
    ∷ ("1d", limits 93600 172800)
    ∷ ("1w", limits 604800 1209600)
    ∷ ("1M", limits 2592000 5184000)
    ∷ []

abbrev pub crypto_extra_intervals : Table
crypto_extra_intervals =
    ("3m", limits 180 900)
    ∷ ("2h", limits 7200 21600)
    ∷ ("4h", limits 14400 43200)
    ∷ ("6h", limits 21600 64800)
    ∷ ("8h", limits 28800 86400)
    ∷ ("12h", limits 43200 129600)
    ∷ []

-- Times 1.5: every threshold is even.
abbrev scale : String × Thresholds → String × Thresholds
scale (key, t) = (key, limits (t.fresh_sec * 3 / 2) (t.stale_sec * 3 / 2))

-- `result.update(extra)`
abbrev update : Table → Table → Table
update d [] = d
update d ((key, t) ∷ extra) = update (Dict.put String_discrete key t d) extra

unfoldable pub build_crypto_thresholds : Table
build_crypto_thresholds = update (map scale india_interval_thresholds) crypto_extra_intervals

-- The entry whose key is the text with these code points.
unfoldable pub find : List ℕ → Table → Option Thresholds
find key [] = none
find key ((name, t) ∷ rest) = if same_codes (codes name) key then some t else find key rest

-- `age_seconds` and `age_seconds_from_ms`, in microseconds: not below 0.
unfoldable pub age_us : ℕ → ℕ → ℕ
age_us now timestamp = now - timestamp

-- The three steps that both classifiers end with.
unfoldable pub band : Thresholds → ℕ → FreshnessStatus
band t age =
    if leb age (t.fresh_sec * 1000000)
    then fresh
    else if leb age (t.stale_sec * 1000000)
    then stale
    else expired

-- An unknown tier has the thresholds of EQUITY.
pub tier_limits : Bool → Option Thresholds → Thresholds
tier_limits true none = limits 30 120
tier_limits false none = limits 120 600
tier_limits regular (some t) = t

unfoldable pub classify_live : ℕ → ℕ → String → Bool → FreshnessStatus
unfolding tier_limits age_us band
classify_live now event_time_ms tier regular =
    let table = if regular then live_thresholds_regular else live_thresholds_non_regular in
    band (tier_limits regular (find (upper tier) table)) (age_us now (event_time_ms * 1000))

pub table_of : List ℕ → Option Table
unfolding build_crypto_thresholds
table_of market =
    if same_codes (codes "india") market
    then some india_interval_thresholds
    else if same_codes (codes "crypto") market
    then some build_crypto_thresholds
    else none

pub band_in : Option Thresholds → ℕ → FreshnessStatus
unfolding band
band_in none age = unknown
band_in (some t) age = band t age

pub classify_by : Option Table → List ℕ → ℕ → FreshnessStatus
unfolding band_in
classify_by none interval age = unknown
classify_by (some table) interval age = band_in (find interval table) age

-- `now` is the clock, `timestamp` the time of the newest candle.
unfoldable pub classify : ℕ → ℕ → String → String → Result ClassifierError FreshnessStatus
unfolding table_of classify_by age_us
classify now timestamp market interval =
    if same_codes (codes "india") (lower market) && same_codes (codes "3m") (lower interval)
    then err value_error
    else ok (classify_by (table_of (lower market)) (lower interval) (age_us now timestamp))
