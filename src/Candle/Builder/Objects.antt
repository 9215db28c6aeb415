-- ===== src/Candle/Builder/Objects.antt =====
-- What holds of every candle object of a builder, and how the steps of a task keep it.
use data_service.Common.{
  ℕ, zero, suc, ◌≡◌, refl, subst, String, Option, none, some, List, [], ◌∷◌, All, All-append,
  Bool-cases, inl, inr, ltb, ◌==◌, length,
}
use data_service.Common.Dict
use mathlib.Core.Option.{some-injective}
use data_service.Common.Float.{Floats}
use data_service.Candle.{Tick, TickKey, CandleState, apply_tick, get_or}
use data_service.Candle.Builder.{
  CandleBuilder, Round, went_on, waits, Key, Key_discrete, object_at, change_at, closed_at,
  finalise_candle, flush_candle, flush_found, flush_key, apply_at, use_tick, new_candle,
  start_candle, meet_candle, meet, process_interval, instrument_of, candle_open_ms,
}
use data_service.Candle.Builder.Session.{
  Session, Task, in_tick, in_flush, after, run_flush, run_rounds, forget,
}
use data_service.Candle.Builder.Contract.{objects}

pub object_at-All {ℓ} :
    {C : Type ℓ} (Q : C → Type 0) (i : ℕ) (l : List C) (c : C)
    → All Q l
    → object_at i l ≡ some c
    → Q c
unfolding object_at
object_at-All Q i [] c h e = cc
object_at-All Q zero (x ∷ cs) c h e = subst Q (some-injective x c e) h.0
object_at-All Q (suc i) (x ∷ cs) c h e = object_at-All Q i cs c h.1 e

module _ {A R : Type 0} (P : CandleState A R → Type 0) where
  change_at-All :
      (g : CandleState A R → CandleState A R) (i : ℕ) (cs : List (CandleState A R))
      → ((c : CandleState A R) → P c → P (g c))
      → All P cs
      → All P (change_at g i cs)
  unfolding change_at
  change_at-All g i [] keeps h = tt
  change_at-All g zero (c ∷ cs) keeps h = (keeps c h.0, h.1)
  change_at-All g (suc i) (c ∷ cs) keeps h = (h.0, change_at-All g i cs keeps h.1)

  objects-cons :
      (o : Option (CandleState A R)) (rest : List (CandleState A R))
      → ((c : CandleState A R) → o ≡ some c → P c)
      → All P rest
      → All P (elim o [ none ↦ rest | some c ↦ c ∷ rest ])
  objects-cons none rest good h = h
  objects-cons (some c) rest good h = (good c refl, h)

  pub objects-All : (is : List ℕ) (cs : List (CandleState A R)) → All P cs → All P (objects is cs)
  unfolding objects
  objects-All [] cs h = tt
  objects-All (i ∷ is) cs h =
      objects-cons (object_at i cs) (objects is cs) (λ c e. object_at-All P i cs c h e)
        (objects-All is cs h)

  -- The candles of a builder.
  abbrev pub Holds : CandleBuilder A R → Type 0
  Holds b = All P b.candles

  abbrev pub HoldsIn : Round A R → Type 0
  HoldsIn (went_on b) = Holds b
  HoldsIn (waits b) = Holds b

  -- What holds of every candle of a session, and of every task that waits in it.
  abbrev pub Keeps : (Task A → Type 0) → Session A R → Type 0
  Keeps Q s = Holds s.builder × All Q s.waiting

  after-Keeps :
      (Q : Task A → Type 0) (r : Round A R) (left : Task A) (tasks : List (Task A))
      (next : CandleBuilder A R → Session A R)
      → Q left
      → All Q tasks
      → HoldsIn r
      → ((b : CandleBuilder A R) → Holds b → Keeps Q (next b))
      → Keeps Q (after r left tasks next)
  unfolding after
  after-Keeps Q (went_on b) left tasks next q qs h go = go b h
  after-Keeps Q (waits b) left tasks next q qs h go = (h, All-append Q tasks _ qs (q, tt))

  finalise_candle-Holds :
      (now later i : ℕ) (b : CandleBuilder A R)
      → ((c : CandleState A R) → P c → P (closed_at now later c))
      → Holds b
      → Holds (finalise_candle now later i b)
  unfolding finalise_candle
  finalise_candle-Holds now later i b marked h =
      change_at-All (closed_at now later) i b.candles marked h

  flush_candle-Holds :
      (now later i : ℕ) (o : Option (CandleState A R)) (b : CandleBuilder A R)
      → ((c : CandleState A R) → P c → P (closed_at now later c))
      → Holds b
      → HoldsIn (flush_candle now later i o b)
  unfolding flush_candle
  flush_candle-Holds now later i none b marked h = h
  flush_candle-Holds now later i (some c) b marked h = elim (Bool-cases (ltb 0 c.tick_count)) [
    | inl used ↦ rw used (finalise_candle-Holds now later i b marked h)
    | inr unused ↦ rw unused h
  ]

  flush_found-Holds :
      (now later : ℕ) (key : Key) (o : Option ℕ) (b : CandleBuilder A R)
      → ((c : CandleState A R) → P c → P (closed_at now later c))
      → Holds b
      → HoldsIn (flush_found now later key o b)
  unfolding flush_found
  flush_found-Holds now later key none b marked h = h
  flush_found-Holds now later key (some i) b marked h =
      flush_candle-Holds now later i (object_at i b.candles)
        (record b { active = Dict.remove Key_discrete key b.active }) marked h

  module _ (now : ℕ) (later : Key → ℕ)
      (marked : (key : Key) (c : CandleState A R) → P c → P (closed_at now (later key) c)) where
    pub run_flush-Keeps :
        (Q : Task A → Type 0) (keys : List Key) (tasks : List (Task A)) (b : CandleBuilder A R)
        → ((left : List Key) → Q (in_flush now left))
        → All Q tasks
        → Holds b
        → Keeps Q (run_flush now later keys tasks b)
    unfolding run_flush flush_key
    run_flush-Keeps Q [] tasks b q qs h = (h, qs)
    run_flush-Keeps Q (key ∷ keys) tasks b q qs h =
        after-Keeps Q (flush_key now (later key) key b) (in_flush now keys) tasks
          (run_flush now later keys tasks) (q keys) qs
          (flush_found-Holds now (later key) key (Dict.get Key_discrete key b.active) b (marked key)
            h)
          (λ b' h'. run_flush-Keeps Q keys tasks b' q qs h')

module _ (f : Floats) {R : Type 0} (dec : Discrete (TickKey R)) (round4 : f.Carrier → R)
    (pick : List (TickKey R) → List (TickKey R)) where
  open f use {Carrier}

  -- The candle that a tick opens.
  abbrev pub opened_by : Tick Carrier → ℕ → String → ℕ → CandleState Carrier R
  opened_by tick ts interval created =
      new_candle f dec round4 pick (instrument_of f dec round4 pick tick)
        (get_or tick.exchange "NSE") interval (candle_open_ms ts interval) created
        (get_or tick.provider "")

  module _ (P : CandleState Carrier R → Type 0) (tick : Tick Carrier) (ts : ℕ)
      (taken : (c : CandleState Carrier R) → P c → P (apply_tick f dec round4 pick tick c).0)
      (fresh : (interval : String) (created : ℕ) → P (opened_by tick ts interval created)) where
    apply_at-All :
        (i : ℕ) (cs : List (CandleState Carrier R))
        → All P cs
        → All P (apply_at f dec round4 pick tick i cs).0
    unfolding apply_at
    apply_at-All i [] h = tt
    apply_at-All zero (c ∷ cs) h = (taken c h.0, h.1)
    apply_at-All (suc i) (c ∷ cs) h = (h.0, apply_at-All i cs h.1)

    use_tick-Holds :
        (i : ℕ) (b : CandleBuilder Carrier R)
        → Holds P b
        → Holds P (use_tick f dec round4 pick tick i b)
    unfolding use_tick
    use_tick-Holds i b h = apply_at-All i b.candles h

    pub start_candle-Holds :
        (created : ℕ) (interval : String) (b : CandleBuilder Carrier R)
        → Holds P b
        → Holds P (start_candle f dec round4 pick created tick ts interval b)
    unfolding start_candle use_tick
    start_candle-Holds created interval b h =
        apply_at-All (length b.candles) _ (All-append P b.candles _ h (fresh interval created, tt))

    module _ (now : ℕ) (later : String → ℕ)
        (marked : (interval : String) (c : CandleState Carrier R)
          → P c
          → P (closed_at now (later interval) c)) where
      meet_candle-Holds :
          (interval : String) (i : ℕ) (o : Option (CandleState Carrier R))
          (b : CandleBuilder Carrier R)
          → Holds P b
          → HoldsIn P (meet_candle f dec round4 pick now (later interval) tick ts interval i o b)
      unfolding meet_candle
      meet_candle-Holds interval i none b h = h
      meet_candle-Holds interval i (some c) b h =
          elim (Bool-cases (c.candle_time_ms == candle_open_ms ts interval)) [
            | inl same ↦ rw same (use_tick-Holds i b h)
            | inr other ↦
                rw other (finalise_candle-Holds P now (later interval) i b (marked interval) h)
          ]

      meet-Holds :
          (interval : String) (o : Option ℕ) (b : CandleBuilder Carrier R)
          → Holds P b
          → HoldsIn P (meet f dec round4 pick now (later interval) tick ts interval o b)
      unfolding meet
      meet-Holds interval none b h = start_candle-Holds (later interval) interval b h
      meet-Holds interval (some i) b h = meet_candle-Holds interval i (object_at i b.candles) b h

      pub run_rounds-Keeps :
          (Q : Task Carrier → Type 0) (l : List String) (tasks : List (Task Carrier))
          (b : CandleBuilder Carrier R)
          → ((interval : String) (rest : List String) → Q (in_tick now tick ts interval rest))
          → All Q tasks
          → Holds P b
          → Keeps P Q (run_rounds f dec round4 pick now later tick ts l tasks b)
      unfolding run_rounds process_interval
      run_rounds-Keeps Q [] tasks b q qs h = (h, qs)
      run_rounds-Keeps Q (interval ∷ rest) tasks b q qs h =
          after-Keeps P Q
            (process_interval f dec round4 pick now (later interval) tick ts interval b)
            (in_tick now tick ts interval rest) tasks
            (run_rounds f dec round4 pick now later tick ts rest tasks) (q interval rest) qs
            (meet-Holds interval
              (Dict.get Key_discrete (instrument_of f dec round4 pick tick, interval) b.active) b h)
            (λ b' h'. run_rounds-Keeps Q rest tasks b' q qs h')

-- A waiting task that is taken out, and those that go on waiting.
pub forget-All {ℓ κ} :
    {C : Type ℓ} (Q : C → Type κ) (i : ℕ) (l : List C) → All Q l → All Q (forget i l)
unfolding forget
forget-All Q i [] h = tt
forget-All Q zero (c ∷ cs) h = h.1
forget-All Q (suc i) (c ∷ cs) h = (h.0, forget-All Q i cs h.1)
