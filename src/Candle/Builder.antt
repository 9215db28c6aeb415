-- ===== src/Candle/Builder.antt =====
-- src/engines/candle_builder.py: `CandleBuilder`. Its candles are objects: `candles` holds all that
-- were ever made, in the order of their creation, and a candle is named by its place there, since
-- the active candles and the finalised ones can be the same objects. `_finalise_candle` awaits its
-- callbacks, with no lock, and a `process_tick` or a `flush_all` waits there while others run: each
-- is a task that ends, or that waits with what it has left to do (Builder/Session.antt). What a
-- callback raises is swallowed.
pub mod Session
pub mod Contract
pub mod Objects
pub mod Bars
pub mod Accepted
pub mod PointInTime
pub mod Opened
pub mod LookAhead
use data_service.Common.{
  ℕ, zero, suc, ◌+◌, ◌*◌, ◌/◌, String, Bool, true, false, Option, none, some, List, [], ◌∷◌, ◌++◌,
  leb, ltb, length, if◌then◌else◌, String_discrete, Pair_discrete, Result, ok, err, is_empty, map,
  not, ◌==◌,
}
use data_service.Common.Dict
use data_service.Common.Int.{pos}
use data_service.Common.Float.{Floats}
use data_service.Candle.{Tick, TickKey, CandleState, or_number, or_text, get_or, apply_tick}
use data_service.Validators.Ohlcv.{min_float}

abbrev pub candle_interval_seconds : List (String × ℕ)
candle_interval_seconds =
    ("1m", 60) ∷ ("5m", 300) ∷ ("10m", 600) ∷ ("15m", 900) ∷ ("30m", 1800) ∷ ("1h", 3600) ∷ []

abbrev pub max_late_tick_sec : ℕ
max_late_tick_sec = 120

abbrev pub Key : Type 0
Key = String × String

abbrev pub Key_discrete : Discrete Key
Key_discrete = Pair_discrete String_discrete String_discrete

pub record CandleBuilder (A R : Type 0) : Type 0 where
  pub intervals : List String
  pub candles : List (CandleState A R)
  pub active : List (Key × ℕ)
  pub finalised : List ℕ
  pub tick_counts : List (String × ℕ)
  pub ticks_processed : ℕ
  pub candles_finalised : ℕ
  pub late_ticks_discarded : ℕ
  pub duplicate_ticks : ℕ

-- The readings of the clock when a tick comes in: for a tick that has no time, and for the age of
-- the tick.
pub record Clock : Type 0 where
  pub arrival : ℕ
  pub now : ℕ

pub data BuilderError : Type 0 where
  unknown_interval : String → BuilderError

-- An interval that is not in the table is a KeyError in the source; `init` refuses it.
unfoldable pub period_ms : String → ℕ
period_ms interval = get_or (Dict.get String_discrete interval candle_interval_seconds) 0 * 1000

-- `_candle_open_ms`
unfoldable pub candle_open_ms : ℕ → String → ℕ
candle_open_ms ts interval = ts / period_ms interval * period_ms interval

find_unknown : List String → Option String
find_unknown [] = none
find_unknown (interval ∷ rest) = elim (Dict.get String_discrete interval candle_interval_seconds) [
  | none ↦ some interval
  | some seconds ↦ find_unknown rest
]

empty_builder :
    {A R : Type 0} → List String → Option String → Result BuilderError (CandleBuilder A R)
empty_builder intervals (some interval) = err (unknown_interval interval)
empty_builder intervals none = ok (record {
  intervals = intervals;
  candles = [];
  active = [];
  finalised = [];
  tick_counts = [];
  ticks_processed = 0;
  candles_finalised = 0;
  late_ticks_discarded = 0;
  duplicate_ticks = 0;
})

abbrev default_intervals : List String
default_intervals = "1m" ∷ "5m" ∷ "10m" ∷ "15m" ∷ "30m" ∷ "1h" ∷ []

-- `__init__`; the empty list counts as not given.
unfoldable pub init : {A R : Type 0} → List String → Result BuilderError (CandleBuilder A R)
unfolding find_unknown empty_builder
init intervals =
    let chosen = if is_empty intervals then default_intervals else intervals in
    empty_builder chosen (find_unknown chosen)

-- The object at a place; every place that the builder keeps has one.
unfoldable pub object_at {ℓ} : {C : Type ℓ} → ℕ → List C → Option C
object_at i [] = none
object_at zero (c ∷ cs) = some c
object_at (suc i) (c ∷ cs) = object_at i cs

-- An object is changed in place.
unfoldable pub change_at {ℓ} : {C : Type ℓ} → (C → C) → ℕ → List C → List C
change_at g i [] = []
change_at g zero (c ∷ cs) = g c ∷ cs
change_at g (suc i) (c ∷ cs) = c ∷ change_at g i cs

-- What a task came to: it goes on, or it waits for the callbacks of a finalised candle.
pub data Round (A R : Type 0) : Type 0 where
  went_on waits : CandleBuilder A R → Round A R

module _ {A R : Type 0} where
  abbrev pub closed_at : ℕ → ℕ → CandleState A R → CandleState A R
  closed_at at later c = record c {
    finalised = true;
    available_at_ms = some at;
    ingestion_time_ms = later;
  }

  -- `_finalise_candle`, up to its callbacks.
  unfoldable pub finalise_candle : ℕ → ℕ → ℕ → CandleBuilder A R → CandleBuilder A R
  unfolding change_at
  finalise_candle at later i b = record b {
    candles = change_at (closed_at at later) i b.candles;
    finalised = b.finalised ++ i ∷ [];
    candles_finalised = b.candles_finalised + 1;
  }

  -- One key of `flush_all`: its candle is taken out, and finalised if it has a tick.
  flush_candle : ℕ → ℕ → ℕ → Option (CandleState A R) → CandleBuilder A R → Round A R
  unfolding finalise_candle
  flush_candle now later i none b = went_on b
  flush_candle now later i (some c) b =
      if ltb 0 c.tick_count then waits (finalise_candle now later i b) else went_on b

  flush_found : ℕ → ℕ → Key → Option ℕ → CandleBuilder A R → Round A R
  unfolding flush_candle object_at
  flush_found now later key none b = went_on b
  flush_found now later key (some i) b =
      flush_candle now later i (object_at i b.candles)
        (record b { active = Dict.remove Key_discrete key b.active })

  unfoldable pub flush_key : ℕ → ℕ → Key → CandleBuilder A R → Round A R
  unfolding flush_found
  flush_key now later key b = flush_found now later key (Dict.get Key_discrete key b.active) b

  partial_of : Option (CandleState A R) → Option (CandleState A R)
  partial_of none = none
  partial_of (some c) = if c.tick_count == 0 then none else some c

  partial_at : List (CandleState A R) → Option ℕ → Option (CandleState A R)
  unfolding partial_of object_at
  partial_at candles none = none
  partial_at candles (some i) = partial_of (object_at i candles)

  -- `get_partial`, before the candle is turned into a dictionary.
  unfoldable pub get_partial : String → String → CandleBuilder A R → Option (CandleState A R)
  unfolding partial_at
  get_partial instrument interval b =
      partial_at b.candles (Dict.get Key_discrete (instrument, interval) b.active)

module _ (f : Floats) {R : Type 0} (dec : Discrete (TickKey R)) (round4 : f.Carrier → R)
    (pick : List (TickKey R) → List (TickKey R)) where
  open f use {Carrier, origin, infinity}

  abbrev Builder : Type 0
  Builder = CandleBuilder Carrier R

  -- A candle with the defaults of the data class.
  unfoldable pub new_candle : String → String → String → ℕ → ℕ → String → CandleState Carrier R
  new_candle instrument exchange interval open_ms created provider = record {
    instrument_id = instrument;
    exchange = exchange;
    interval = interval;
    candle_time_ms = open_ms;
    open_price = origin;
    high = origin;
    low = infinity;
    close = origin;
    volume = pos 0;
    open_interest = none;
    oi_change = none;
    tick_count = 0;
    finalised = false;
    available_at_ms = none;
    ingestion_time_ms = created;
    provider = provider;
    seen_tick_keys = [];
  }

  unfoldable pub instrument_of : Tick Carrier → String
  instrument_of tick = or_text tick.instrument_id_camel (get_or tick.instrument_id "")

  -- `current.apply_tick(tick)` on an object; the answer of an object that is not there is not asked for.
  unfoldable pub apply_at :
      Tick Carrier → ℕ → List (CandleState Carrier R) → List (CandleState Carrier R) × Bool
  apply_at tick i [] = ([], true)
  apply_at tick zero (c ∷ cs) =
      let (updated, used) = apply_tick f dec round4 pick tick c in (updated ∷ cs, used)
  apply_at tick (suc i) (c ∷ cs) = let (rest, used) = apply_at tick i cs in (c ∷ rest, used)

  use_tick : Tick Carrier → ℕ → Builder → Builder
  unfolding apply_at
  use_tick tick i b =
      let (candles, used) = apply_at tick i b.candles in
      record b {
        candles = candles;
        duplicate_ticks = if used then b.duplicate_ticks else b.duplicate_ticks + 1;
      }

  -- A new candle becomes the active one, and the tick goes to it; `created` is the clock's reading.
  unfoldable pub start_candle : ℕ → Tick Carrier → ℕ → String → Builder → Builder
  unfolding new_candle instrument_of use_tick
  start_candle created tick ts interval b =
      let c =
        new_candle (instrument_of tick) (get_or tick.exchange "NSE") interval
          (candle_open_ms ts interval) created (get_or tick.provider "") in
      let i = length b.candles in
      use_tick tick i (record b {
        candles = b.candles ++ c ∷ [];
        active = Dict.put Key_discrete (instrument_of tick, interval) i b.active;
      })

  -- An active candle of the tick's period takes the tick; one of another period is finalised.
  meet_candle :
      ℕ
      → ℕ
      → Tick Carrier
      → ℕ
      → String
      → ℕ
      → Option (CandleState Carrier R)
      → Builder
      → Round Carrier R
  unfolding use_tick finalise_candle candle_open_ms
  meet_candle now later tick ts interval i none b = went_on b
  meet_candle now later tick ts interval i (some current) b =
      if current.candle_time_ms == candle_open_ms ts interval
      then went_on (use_tick tick i b)
      else waits (finalise_candle now later i b)

  meet : ℕ → ℕ → Tick Carrier → ℕ → String → Option ℕ → Builder → Round Carrier R
  unfolding meet_candle start_candle object_at
  meet now later tick ts interval none b = went_on (start_candle later tick ts interval b)
  meet now later tick ts interval (some i) b =
      meet_candle now later tick ts interval i (object_at i b.candles) b

  -- One round of the loop over the intervals, up to its await; `now` is the reading of the clock when
  -- the tick came in, `later` the one in this round.
  unfoldable pub process_interval : ℕ → ℕ → Tick Carrier → ℕ → String → Builder → Round Carrier R
  unfolding meet instrument_of
  process_interval now later tick ts interval b =
      meet now later tick ts interval
        (Dict.get Key_discrete (instrument_of tick, interval) b.active) b

  -- The time of a tick; the clock stands in where it has none.
  unfoldable pub time_of : Clock → Tick Carrier → ℕ
  time_of clock tick = get_or (or_number tick.exchange_ts_ms tick.event_time_ms) clock.arrival

  unfoldable pub count_tick_of : String → Builder → Builder
  count_tick_of instrument b = record b {
    ticks_processed = b.ticks_processed + 1;
    tick_counts =
        Dict.put String_discrete instrument
          (get_or (Dict.get String_discrete instrument b.tick_counts) 0 + 1) b.tick_counts;
  }
