-- ===== src/Tests/Candles.antt =====
-- The candle builder at concrete ticks; prices are whole numbers.
use data_service.Common.{
  ℕ, ◌+◌, ◌<◌, ◌≡◌, ◌≢◌, ◌⊎◌, refl, false, none, some, is_empty, List, [], ◌∷◌, ok, arith, All,
  ℕ_discrete, String_discrete, Pair_discrete,
}
use data_service.Common.Dict
use data_service.Common.Int.{ℤ, pos, negsuc}
use data_service.Candle.{Tick, TickKey, apply_tick, to_dict}
use data_service.Candle.Builder.{
  CandleBuilder, Clock, Key_discrete, candle_open_ms, period_ms, time_of, instrument_of,
}
use data_service.Candle.Builder.Session.{Session, Move, tick_in, go_on, run_session}
use data_service.Candle.Builder.Contract.{finalised_candles, validate_point_in_time}
use data_service.Candle.Builder.Accepted.{AreGood, IsPricedMove, run_session-accepted}
use data_service.Candle.Builder.LookAhead.{run_session-look_ahead}
use data_service.Validators.Ohlcv.{validate_ohlcv_invariants}
use data_service.Tests.Validation.{whole_floats, no_text, context, context-free}

-- Prices are kept as they are.
keys : Discrete (TickKey ℕ)
keys = hlevel ℕ_discrete

abbrev same_price : ℕ → ℕ
same_price x = x

abbrev keep_all : List (TickKey ℕ) → List (TickKey ℕ)
keep_all l = l

abbrev builder : CandleBuilder ℕ ℕ
builder = record {
  intervals = "1m" ∷ [];
  candles = [];
  active = [];
  finalised = [];
  tick_counts = [];
  ticks_processed = 0;
  candles_finalised = 0;
  late_ticks_discarded = 0;
  duplicate_ticks = 0;
}

abbrev tick_at : ℕ → ℕ → Tick ℕ
tick_at time price = record {
  instrument_id_camel = some "NIFTY";
  instrument_id = none;
  exchange = none;
  exchange_ts_ms = some time;
  event_time_ms = none;
  ltp = some price;
  volume = some (pos 10);
  oi = none;
  open_interest = none;
  provider = some "upstox";
}

abbrev clock_at : ℕ → Clock
clock_at now = record { arrival = now; now = now }

abbrev arrive : ℕ → ℕ → Move ℕ
arrive time price = tick_in (clock_at (time + 5)) (λ i. time + 6) (tick_at time price)

abbrev resume : ℕ → Move ℕ
resume now = go_on 0 (λ i. now) (λ k. now)

abbrev start : Session ℕ ℕ
start = record { builder = builder; waiting = [] }

-- A tick in the second minute, one in the third, which waits, one more in the second, and the one
-- that waits goes on.
abbrev moves : List (Move ℕ)
moves = arrive 60000 100 ∷ arrive 120000 103 ∷ arrive 61000 105 ∷ resume 120300 ∷ []

abbrev ended : Session ℕ ℕ
ended = run_session whole_floats keys same_price keep_all moves start

-- A number as a float; below zero is not asked for here.
abbrev as_float : ℤ → ℕ
as_float (pos n) = n
as_float (negsuc n) = 0

priced :
    (time price : ℕ)
    → 0 < price
    → IsPricedMove whole_floats keys same_price keep_all (arrive time price)
priced time price p = (λ x e. ground arith, omega arith)

start-AreGood : AreGood whole_floats keys same_price keep_all start
start-AreGood = (tt, tt)

run_session-accepted_example :
    All
      (λ c.
        (c.tick_count ≡ 0)
        ⊎ (validate_ohlcv_invariants whole_floats no_text context (to_dict whole_floats as_float c)
            ≡ ok none))
      (finalised_candles ended.builder)
run_session-accepted_example =
    run_session-accepted whole_floats keys same_price keep_all as_float (λ n. ground arith) no_text
      context context-free moves start
      (
        priced 60000 100 (omega arith),
        (priced 120000 103 (omega arith), (priced 61000 105 (omega arith), (tt, tt))),
      )
      start-AreGood

-- The steps of a session in order.
abbrev steady_moves : List (Move ℕ)
steady_moves = arrive 60000 100 ∷ arrive 120000 103 ∷ resume 120300 ∷ []

nothing_active :
    Dict.get Key_discrete
      (instrument_of whole_floats keys same_price keep_all (tick_at 120000 105), "1m")
      builder.active
    ≡ none
unfolding Dict.get
nothing_active = refl

opened_elsewhere :
    ◌≢◌ {A = ℕ}
      (candle_open_ms
        (time_of whole_floats keys same_price keep_all (clock_at 61000) (tick_at 120000 105))
        "1m")
      (candle_open_ms
        (time_of whole_floats keys same_price keep_all (clock_at 62000) (tick_at 61000 100))
        "1m")
unfolding time_of candle_open_ms period_ms Dict.get String_discrete
opened_elsewhere = λ e. ground arith

same_instrument :
    instrument_of whole_floats keys same_price keep_all (tick_at 61000 100)
    ≡ instrument_of whole_floats keys same_price keep_all (tick_at 120000 105)
unfolding instrument_of
same_instrument = refl

-- A tick that is a minute ahead of the clock, and one in time.
abbrev hasty_moves : List (Move ℕ)
hasty_moves =
    tick_in (clock_at 61000) (λ i. 61000) (tick_at 120000 105)
    ∷ tick_in (clock_at 62000) (λ i. 62000) (tick_at 61000 100)
    ∷ []

run_session-look_ahead_example :
    validate_point_in_time
      (run_session whole_floats keys same_price keep_all hasty_moves start).builder
    ≢ []
unfolding time_of candle_open_ms period_ms Dict.get String_discrete
run_session-look_ahead_example =
    run_session-look_ahead whole_floats keys same_price keep_all (clock_at 61000) (clock_at 62000)
      (λ i. 61000) (λ i. 62000) (tick_at 120000 105) (tick_at 61000 100) "1m" start refl
      nothing_active same_instrument (omega arith) (omega arith) opened_elsewhere (omega arith)

-- Two streams on one builder: a tick waits in the callbacks of its 1m candle while a later tick opens
-- the next 5m candle; the first one then finalises that candle with its own, older reading.
abbrev two_streams : List (Move ℕ)
two_streams =
    arrive 200000 100
    ∷ arrive 240000 101
    ∷ arrive 300000 102
    ∷ go_on 1 (λ i. 300100) (λ k. 300100)
    ∷ go_on 1 (λ i. 300200) (λ k. 300200)
    ∷ resume 300300
    ∷ []

abbrev both : Session ℕ ℕ
both = record start { builder = record builder { intervals = "1m" ∷ "5m" ∷ [] } }

two_streams-violation :
    is_empty (
      validate_point_in_time
        (run_session whole_floats keys same_price keep_all two_streams both).builder)
    ≡ false
unfolding time_of run_session instrument_of Dict.get Dict.put Pair_discrete String_discrete
    candle_open_ms period_ms keys apply_tick validate_point_in_time
two_streams-violation = refl
