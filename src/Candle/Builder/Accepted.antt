-- ===== src/Candle/Builder/Accepted.antt =====
-- The candles of a session as the candle validator sees them.
use data_service.Common.{
  ℕ, String, ◌≡◌, refl, sym, tests, subst, ◌∙◌, ap, false, Option, none, some, List, [], ◌∷◌, All,
  All-map, ok, ◌⊎◌, inl, inr, arith, Bool-cases, ltb, ◌+◌, ◌*◌,
}
use data_service.Common.Int.{ℤ, pos, negsuc, ◌≤ℤ◌}
use data_service.Common.Float.{Floats}
use data_service.Candle.{Tick, TickKey, CandleState, to_dict}
use data_service.Candle.Builder.{
  CandleBuilder, Clock, Key, time_of, instrument_of, count_tick_of, max_late_tick_sec, object_at,
  new_candle,
}
use data_service.Candle.Builder.Session.{
  Session, Task, Move, tick_in, flush_in, go_on, in_tick, in_flush, forget, process_tick, flush_all,
  continue, make_move, run_session,
}
use data_service.Candle.Builder.Contract.{finalised_candles}
use data_service.Candle.Builder.Objects.{
  Holds, Keeps, objects-All, object_at-All, forget-All, opened_by, run_flush-Keeps,
  run_rounds-Keeps, start_candle-Holds,
}
use data_service.Candle.Builder.Bars.{IsPriced, IsGood, apply_tick-IsGood}
use data_service.Validators.Ohlcv.{Context, min_float, to_float, validate_ohlcv_invariants}
use data_service.Validators.Ohlcv.Correct.{IsBar, is_blocked, ReadsAsBar, validate-accepts_iff}

module _ (f : Floats) {R : Type 0} (dec : Discrete (TickKey R)) (round4 : f.Carrier → R)
    (pick : List (TickKey R) → List (TickKey R)) where
  open f use {Carrier, origin, lt}

  -- The ticks that waiting tasks hold.
  abbrev pub IsPricedTask : Task Carrier → Type 0
  IsPricedTask (in_tick now tick ts interval rest) = IsPriced f dec round4 pick tick
  IsPricedTask (in_flush now keys) = Unit

  abbrev pub IsPricedMove : Move Carrier → Type 0
  IsPricedMove (tick_in clock later tick) = IsPriced f dec round4 pick tick
  IsPricedMove _ = Unit

  -- Every candle is good, and every waiting tick brings a positive price.
  abbrev pub AreGood : Session Carrier R → Type 0
  AreGood s = Keeps (IsGood f dec round4 pick) IsPricedTask s

  fresh-IsGood :
      (tick : Tick Carrier) (ts : ℕ) (interval : String) (created : ℕ)
      → IsGood f dec round4 pick (opened_by f dec round4 pick tick ts interval created)
  unfolding new_candle
  fresh-IsGood tick ts interval created = λ counted. absurd (omega arith)

  process_tick-AreGood :
      (clock : Clock) (later : String → ℕ) (tick : Tick Carrier) (s : Session Carrier R)
      → IsPriced f dec round4 pick tick
      → AreGood s
      → AreGood (process_tick f dec round4 pick clock later tick s)
  unfolding process_tick
  process_tick-AreGood clock later tick s p (h, q) =
      let ts = time_of f dec round4 pick clock tick in
      elim (Bool-cases (ltb (ts + max_late_tick_sec * 1000) clock.now)) [
        | inl late ↦ rw late (h, q)
        | inr timely ↦ rw timely (
            run_rounds-Keeps f dec round4 pick (IsGood f dec round4 pick) tick ts
              (apply_tick-IsGood f dec round4 pick tick p) (fresh-IsGood tick ts) clock.now later
              (λ interval c good. good) IsPricedTask s.builder.intervals s.waiting
              (count_tick_of f dec round4 pick (instrument_of f dec round4 pick tick) s.builder)
              (λ interval rest. p) q h)
      ]

  flush_all-AreGood :
      (now : ℕ) (later : Key → ℕ) (s : Session Carrier R)
      → AreGood s
      → AreGood (flush_all f dec round4 pick now later s)
  unfolding flush_all
  flush_all-AreGood now later s (h, q) =
      run_flush-Keeps (IsGood f dec round4 pick) now later (λ key c good. good) IsPricedTask _
        s.waiting s.builder (λ left. tt) q h

  continue-AreGood :
      (later : String → ℕ) (later_key : Key → ℕ) (o : Option (Task Carrier))
      (tasks : List (Task Carrier)) (b : CandleBuilder Carrier R)
      → ((t : Task Carrier) → o ≡ some t → IsPricedTask t)
      → All IsPricedTask tasks
      → Holds (IsGood f dec round4 pick) b
      → AreGood (continue f dec round4 pick later later_key o tasks b)
  unfolding continue
  continue-AreGood later later_key none tasks b p q h = (h, q)
  continue-AreGood later later_key (some (in_tick now tick ts interval rest)) tasks b p q h =
      let priced = p (in_tick now tick ts interval rest) refl in
      let taken = apply_tick-IsGood f dec round4 pick tick priced in
      run_rounds-Keeps f dec round4 pick (IsGood f dec round4 pick) tick ts taken
        (fresh-IsGood tick ts) now later (λ interval c good. good) IsPricedTask rest tasks _
        (λ interval rest. priced) q
        (start_candle-Holds f dec round4 pick (IsGood f dec round4 pick) tick ts taken
          (fresh-IsGood tick ts) (later interval) interval b h)
  continue-AreGood later later_key (some (in_flush now keys)) tasks b p q h =
      run_flush-Keeps (IsGood f dec round4 pick) now later_key (λ key c good. good) IsPricedTask
        keys tasks b (λ left. tt) q h

  run_session-AreGood :
      (l : List (Move Carrier)) (s : Session Carrier R)
      → All IsPricedMove l
      → AreGood s
      → AreGood (run_session f dec round4 pick l s)
  unfolding run_session make_move
  run_session-AreGood [] s p h = h
  run_session-AreGood (tick_in clock later tick ∷ rest) s p h =
      run_session-AreGood rest _ p.1 (process_tick-AreGood clock later tick s p.0 h)
  run_session-AreGood (flush_in now later ∷ rest) s p h =
      run_session-AreGood rest _ p.1 (flush_all-AreGood now later s h)
  run_session-AreGood (go_on i later later_key ∷ rest) s p (h, q) = run_session-AreGood rest _ p.1 (
      continue-AreGood later later_key (object_at i s.waiting) (forget i s.waiting) s.builder
        (λ t e. object_at-All IsPricedTask i s.waiting t q e)
        (forget-All IsPricedTask i s.waiting q) h)

  min_float-le : (l x : Carrier) → lt x l ≡ false → min_float f l x ≡ l
  unfolding min_float
  min_float-le l x h = rw h

  module _ (of_int : ℤ → Carrier) (whole : (n : ℕ) → lt (of_int (pos n)) origin ≡ false)
      (parse : String → Option Carrier) (ctx : Context) (free : is_blocked f ctx ≡ false) where
    whole_nonneg : (z : ℤ) → pos 0 ≤ℤ z → lt (of_int z) origin ≡ false
    whole_nonneg (pos n) h = whole n
    whole_nonneg (negsuc n) h = absurd (omega arith)

    to_dict-ReadsAsBar :
        (c : CandleState Carrier R)
        → IsBar f c.open_price c.high c.low c.close
        → pos 0 ≤ℤ c.volume
        → ReadsAsBar f parse (to_dict f of_int c)
    unfolding to_dict to_float
    to_dict-ReadsAsBar c b v =
        let low = min_float-le c.low c.open_price b.low_le_open in
        let lowest =
          ap (λ x. min_float f x c.close) low ∙ min_float-le c.low c.close b.low_le_close in
        (subst (λ x. IsBar f c.open_price c.high x c.close) (sym lowest) b, whole_nonneg c.volume v)

    IsGood-accepted :
        (c : CandleState Carrier R)
        → IsGood f dec round4 pick c
        → (c.tick_count ≡ 0)
          ⊎ (validate_ohlcv_invariants f parse ctx (to_dict f of_int c) ≡ ok none)
    IsGood-accepted c good = elim (Bool-cases (ltb 0 c.tick_count)) [
      | inl used ↦
          let (bar, volume) = good (omega (tests, used)) in
          inr (
            (validate-accepts_iff f parse ctx (to_dict f of_int c)).1
              (free, to_dict-ReadsAsBar c bar volume))
      | inr unused ↦ inl (ground arith)
    ]

    -- Whatever ticks come in, at whatever times, and in whatever order they, the flushes and the
    -- steps of those that wait for callbacks follow one another: if all prices are positive and all
    -- volumes not below zero, the candles that have ticks are price bars at the start, and no whole
    -- number from zero on is below zero as a float, then every finalised candle has no tick or
    -- passes the candle validator, in a context whose interval is not blocked.
    pub run_session-accepted :
        (l : List (Move Carrier)) (s : Session Carrier R)
        → All IsPricedMove l
        → AreGood s
        → All
            (λ c.
              (c.tick_count ≡ 0)
              ⊎ (validate_ohlcv_invariants f parse ctx (to_dict f of_int c) ≡ ok none))
            (finalised_candles (run_session f dec round4 pick l s).builder)
    unfolding finalised_candles
    run_session-accepted l s p h =
        let done = (run_session f dec round4 pick l s).builder in
        All-map _ _ (finalised_candles done) IsGood-accepted (
          objects-All (IsGood f dec round4 pick) done.finalised done.candles
            (run_session-AreGood l s p h).0)
