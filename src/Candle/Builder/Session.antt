-- ===== src/Candle/Builder/Session.antt =====
-- src/engines/candle_builder.py: the coroutines of `CandleBuilder`, `process_tick` and `flush_all`, as
-- tasks. A task runs until it awaits the callbacks of a candle that it has finalised, and goes on
-- later; in between, other tasks may run, as the streams that share one builder do
-- (src/server.py).
use data_service.Common.{
  ℕ, zero, suc, ◌+◌, ◌*◌, String, Option, none, some, List, [], ◌∷◌, ◌++◌, ltb, if◌then◌else◌, map,
}
use data_service.Common.Float.{Floats}
use data_service.Candle.{Tick, TickKey}
use data_service.Candle.Builder.{
  CandleBuilder, Clock, Key, Round, went_on, waits, flush_key, start_candle, process_interval,
  time_of, count_tick_of, instrument_of, max_late_tick_sec, object_at,
}

-- What a waiting task has left to do: the rest of the round of an interval and the rounds after it,
-- or the keys that are still to be flushed.
pub data Task (A : Type 0) : Type 0 where
  in_tick : ℕ → Tick A → ℕ → String → List String → Task A
  in_flush : ℕ → List Key → Task A

pub record Session (A R : Type 0) : Type 0 where
  pub builder : CandleBuilder A R
  pub waiting : List (Task A)

-- What happens next: a tick comes in, the builder is flushed, or a waiting task goes on. `later`
-- tells the readings of the clock in the rounds of the intervals, and those of the keys.
pub data Move (A : Type 0) : Type 0 where
  tick_in : Clock → (String → ℕ) → Tick A → Move A
  flush_in : ℕ → (Key → ℕ) → Move A
  go_on : ℕ → (String → ℕ) → (Key → ℕ) → Move A

unfoldable pub forget {ℓ} : {C : Type ℓ} → ℕ → List C → List C
forget i [] = []
forget zero (c ∷ cs) = cs
forget (suc i) (c ∷ cs) = c ∷ forget i cs

module _ {A R : Type 0} where
  -- What becomes of a task once one of its rounds has come to its end or to an await.
  unfoldable pub after :
      Round A R → Task A → List (Task A) → (CandleBuilder A R → Session A R) → Session A R
  after (went_on b) left tasks next = next b
  after (waits b) left tasks next = record { builder = b; waiting = tasks ++ left ∷ [] }

  unfoldable pub run_flush :
      ℕ → (Key → ℕ) → List Key → List (Task A) → CandleBuilder A R → Session A R
  unfolding flush_key after
  run_flush now later [] tasks b = record { builder = b; waiting = tasks }
  run_flush now later (key ∷ keys) tasks b =
      after (flush_key now (later key) key b) (in_flush now keys) tasks
        (run_flush now later keys tasks)

module _ (f : Floats) {R : Type 0} (dec : Discrete (TickKey R)) (round4 : f.Carrier → R)
    (pick : List (TickKey R) → List (TickKey R)) where
  open f use {Carrier}

  -- The loop over the intervals.
  unfoldable pub run_rounds :
      ℕ
      → (String → ℕ)
      → Tick Carrier
      → ℕ
      → List String
      → List (Task Carrier)
      → CandleBuilder Carrier R
      → Session Carrier R
  unfolding process_interval after
  run_rounds now later tick ts [] tasks b = record { builder = b; waiting = tasks }
  run_rounds now later tick ts (interval ∷ rest) tasks b =
      after (process_interval f dec round4 pick now (later interval) tick ts interval b)
        (in_tick now tick ts interval rest) tasks (run_rounds now later tick ts rest tasks)

  -- `process_tick`, up to its first await.
  unfoldable pub process_tick :
      Clock → (String → ℕ) → Tick Carrier → Session Carrier R → Session Carrier R
  unfolding time_of count_tick_of instrument_of run_rounds
  process_tick clock later tick s =
      let ts = time_of f dec round4 pick clock tick in
      if ltb (ts + max_late_tick_sec * 1000) clock.now
      then record s {
        builder = record s.builder { late_ticks_discarded = s.builder.late_ticks_discarded + 1 };
      }
      else run_rounds clock.now later tick ts s.builder.intervals s.waiting
          (count_tick_of f dec round4 pick (instrument_of f dec round4 pick tick) s.builder)

  -- `flush_all`, up to its first await.
  unfoldable pub flush_all : ℕ → (Key → ℕ) → Session Carrier R → Session Carrier R
  unfolding run_flush
  flush_all now later s = run_flush now later (map (λ e. e.0) s.builder.active) s.waiting s.builder

  -- A task after its await.
  unfoldable pub continue :
      (String → ℕ)
      → (Key → ℕ)
      → Option (Task Carrier)
      → List (Task Carrier)
      → CandleBuilder Carrier R
      → Session Carrier R
  unfolding run_rounds run_flush start_candle
  continue later later_key none tasks b = record { builder = b; waiting = tasks }
  continue later later_key (some (in_tick now tick ts interval rest)) tasks b =
      run_rounds now later tick ts rest tasks
        (start_candle f dec round4 pick (later interval) tick ts interval b)
  continue later later_key (some (in_flush now keys)) tasks b = run_flush now later_key keys tasks b

  unfoldable pub make_move : Move Carrier → Session Carrier R → Session Carrier R
  unfolding process_tick flush_all continue object_at forget
  make_move (tick_in clock later tick) s = process_tick clock later tick s
  make_move (flush_in now later) s = flush_all now later s
  make_move (go_on i later later_key) s =
      continue later later_key (object_at i s.waiting) (forget i s.waiting) s.builder

  -- A session: any moves in any order.
  unfoldable pub run_session : List (Move Carrier) → Session Carrier R → Session Carrier R
  unfolding make_move
  run_session [] s = s
  run_session (m ∷ rest) s = run_session rest (make_move m s)
