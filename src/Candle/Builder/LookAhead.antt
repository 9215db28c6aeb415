-- ===== src/Candle/Builder/LookAhead.antt =====
-- A tick that is ahead of the clock breaks the point-in-time contract.
use data_service.Common.{
  ℕ, ◌+◌, ◌*◌, ◌≤◌, ◌<◌, ◌≡◌, ◌≢◌, refl, ◌∙◌, sym, ap, subst, String, false, Option, none, some,
  List, [], ◌∷◌, ltb, arith,
}
use data_service.Common.Dict
use data_service.Common.Float.{Floats}
use data_service.Candle.{Tick, TickKey, CandleState}
use data_service.Candle.Builder.{
  CandleBuilder, Clock, Key, Key_discrete, time_of, instrument_of, count_tick_of, candle_open_ms,
  max_late_tick_sec, object_at, change_at, use_tick, start_candle, closed_at, finalise_candle,
  process_interval, meet, meet_candle, waits, went_on,
}
use data_service.Candle.Builder.Session.{
  Session, in_tick, tick_in, process_tick, run_rounds, after, run_session, make_move,
}
use data_service.Candle.Builder.Contract.{validate_point_in_time}
use data_service.Candle.Builder.Opened.{
  violations-objects, closed_at-violates, object_at-change_at, IsOpen, start_candle-IsOpen,
}

module _ (f : Floats) {R : Type 0} (dec : Discrete (TickKey R)) (round4 : f.Carrier → R)
    (pick : List (TickKey R) → List (TickKey R)) where
  open f use {Carrier}

  one_interval :
      (clock : Clock) (later : String → ℕ) (tick : Tick Carrier) (interval : String)
      (s : Session Carrier R)
      → s.builder.intervals ≡ interval ∷ []
      → clock.now ≤ time_of f dec round4 pick clock tick + max_late_tick_sec * 1000
      → let ts = time_of f dec round4 pick clock tick in
        let b = count_tick_of f dec round4 pick (instrument_of f dec round4 pick tick) s.builder in
        process_tick f dec round4 pick clock later tick s
        ≡ after
            (process_interval f dec round4 pick clock.now (later interval) tick ts interval b)
            (in_tick clock.now tick ts interval [])
            s.waiting
            (run_rounds f dec round4 pick clock.now later tick ts [] s.waiting)
  unfolding process_tick run_rounds
  one_interval clock later tick interval s one timely =
      let ts = time_of f dec round4 pick clock tick in
      let fresh : ltb (ts + max_late_tick_sec * 1000) clock.now ≡ false = ground arith in
      rw (fresh, one) refl

  interval_absent :
      (now later : ℕ) (tick : Tick Carrier) (ts : ℕ) (interval : String)
      (b : CandleBuilder Carrier R)
      → Dict.get Key_discrete (instrument_of f dec round4 pick tick, interval) b.active ≡ none
      → process_interval f dec round4 pick now later tick ts interval b
        ≡ went_on (start_candle f dec round4 pick later tick ts interval b)
  unfolding process_interval meet
  interval_absent now later tick ts interval b h =
      ap (λ o. meet f dec round4 pick now later tick ts interval o b) h

  meet_other :
      (now later : ℕ) (tick : Tick Carrier) (ts : ℕ) (interval : String) (i : ℕ)
      (o : Option (CandleState Carrier R)) (c : CandleState Carrier R) (b : CandleBuilder Carrier R)
      → o ≡ some c
      → c.candle_time_ms ≢ candle_open_ms ts interval
      → meet_candle f dec round4 pick now later tick ts interval i o b
        ≡ waits (finalise_candle now later i b)
  unfolding meet_candle
  meet_other now later tick ts interval i o c b h other =
      ap (λ x. meet_candle f dec round4 pick now later tick ts interval i x b) h ∙ ground arith

  interval_other :
      (now later : ℕ) (tick : Tick Carrier) (ts open_ms : ℕ) (interval : String)
      (b : CandleBuilder Carrier R)
      (o : IsOpen f dec round4 pick (instrument_of f dec round4 pick tick, interval) open_ms b)
      → open_ms ≢ candle_open_ms ts interval
      → process_interval f dec round4 pick now later tick ts interval b
        ≡ waits (finalise_candle now later o.place b)
  unfolding process_interval meet
  interval_other now later tick ts open_ms interval b o other =
      ap (λ x. meet f dec round4 pick now later tick ts interval x b) o.active
      ∙ meet_other now later tick ts interval o.place (object_at o.place b.candles) o.candle b
          o.there (λ e. other (sym o.opens ∙ e))

  finalised_ahead :
      (now later open_ms : ℕ) (key : Key) (b : CandleBuilder Carrier R)
      (o : IsOpen f dec round4 pick key open_ms b)
      → now < open_ms
      → validate_point_in_time (finalise_candle now later o.place b) ≢ []
  unfolding validate_point_in_time finalise_candle
  finalised_ahead now later open_ms key b o ahead =
      violations-objects b.finalised o.place (change_at (closed_at now later) o.place b.candles)
        (closed_at now later o.candle)
        (object_at-change_at (closed_at now later) o.place b.candles o.candle o.there)
        (closed_at-violates now later o.candle (omega (arith, o.opens)))

  first_tick :
      (clock : Clock) (later : String → ℕ) (tick : Tick Carrier) (interval : String)
      (s : Session Carrier R)
      → s.builder.intervals ≡ interval ∷ []
      → Dict.get Key_discrete (instrument_of f dec round4 pick tick, interval) s.builder.active
        ≡ none
      → clock.now ≤ time_of f dec round4 pick clock tick + max_late_tick_sec * 1000
      → let ts = time_of f dec round4 pick clock tick in
        let b = count_tick_of f dec round4 pick (instrument_of f dec round4 pick tick) s.builder in
        process_tick f dec round4 pick clock later tick s ≡ record {
          builder = start_candle f dec round4 pick (later interval) tick ts interval b;
          waiting = s.waiting;
        }
  unfolding after run_rounds count_tick_of
  first_tick clock later tick interval s one free timely =
      let ts = time_of f dec round4 pick clock tick in
      let b = count_tick_of f dec round4 pick (instrument_of f dec round4 pick tick) s.builder in
      one_interval clock later tick interval s one timely
      ∙ ap
          (λ r.
            after r (in_tick clock.now tick ts interval []) s.waiting
              (run_rounds f dec round4 pick clock.now later tick ts [] s.waiting))
          (interval_absent clock.now (later interval) tick ts interval b free)

  second_tick :
      (clock : Clock) (later : String → ℕ) (tick : Tick Carrier) (interval : String) (open_ms : ℕ)
      (s : Session Carrier R)
      → s.builder.intervals ≡ interval ∷ []
      → IsOpen f dec round4 pick (instrument_of f dec round4 pick tick, interval) open_ms s.builder
      → clock.now ≤ time_of f dec round4 pick clock tick + max_late_tick_sec * 1000
      → open_ms ≢ candle_open_ms (time_of f dec round4 pick clock tick) interval
      → clock.now < open_ms
      → validate_point_in_time (process_tick f dec round4 pick clock later tick s).builder ≢ []
  unfolding after count_tick_of
  second_tick clock later tick interval open_ms s one o timely other ahead =
      let ts = time_of f dec round4 pick clock tick in
      let instrument = instrument_of f dec round4 pick tick in
      let b = count_tick_of f dec round4 pick instrument s.builder in
      let o' : IsOpen f dec round4 pick (instrument, interval) open_ms b = record {
        place = o.place;
        candle = o.candle;
        active = o.active;
        there = o.there;
        opens = o.opens;
      } in
      let left = in_tick clock.now tick ts interval [] in
      let next = run_rounds f dec round4 pick clock.now later tick ts [] s.waiting in
      subst (λ x. validate_point_in_time x.builder ≢ [])
        (sym (
          one_interval clock later tick interval s one timely
          ∙ ap (λ r. after r left s.waiting next)
              (interval_other clock.now (later interval) tick ts open_ms interval b o' other)))
        (finalised_ahead clock.now (later interval) open_ms (instrument, interval) b o' ahead)

  -- The builder has no guard against a tick that is ahead of the clock. If it has one interval and no
  -- active candle for the tick's instrument, and a tick that is not too late is followed by one of
  -- another period, also not too late, which comes in before the first one's candle opens by the
  -- clock, then its own point-in-time check finds a violation.
  pub run_session-look_ahead :
      (clock clock' : Clock) (later later' : String → ℕ) (tick tick' : Tick Carrier)
      (interval : String) (s : Session Carrier R)
      → s.builder.intervals ≡ interval ∷ []
      → Dict.get Key_discrete (instrument_of f dec round4 pick tick, interval) s.builder.active
        ≡ none
      → instrument_of f dec round4 pick tick' ≡ instrument_of f dec round4 pick tick
      → clock.now ≤ time_of f dec round4 pick clock tick + max_late_tick_sec * 1000
      → clock'.now ≤ time_of f dec round4 pick clock' tick' + max_late_tick_sec * 1000
      → candle_open_ms (time_of f dec round4 pick clock tick) interval
        ≢ candle_open_ms (time_of f dec round4 pick clock' tick') interval
      → clock'.now < candle_open_ms (time_of f dec round4 pick clock tick) interval
      → let moves = tick_in clock later tick ∷ tick_in clock' later' tick' ∷ [] in
        validate_point_in_time (run_session f dec round4 pick moves s).builder ≢ []
  unfolding run_session make_move count_tick_of start_candle use_tick
  run_session-look_ahead clock clock' later later' tick tick' interval s one free same timely
        timely' other ahead =
      let ts = time_of f dec round4 pick clock tick in
      let b = count_tick_of f dec round4 pick (instrument_of f dec round4 pick tick) s.builder in
      let opened = start_candle f dec round4 pick (later interval) tick ts interval b in
      let is_open = start_candle-IsOpen f dec round4 pick (later interval) tick ts interval b in
      subst
        (λ x.
          validate_point_in_time (process_tick f dec round4 pick clock' later' tick' x).builder
          ≢ [])
        (sym (first_tick clock later tick interval s one free timely))
        (second_tick clock' later' tick' interval (candle_open_ms ts interval)
          (record { builder = opened; waiting = s.waiting }) one
          (subst (λ x. IsOpen f dec round4 pick (x, interval) (candle_open_ms ts interval) opened)
            (sym same) is_open)
          timely' other ahead)
