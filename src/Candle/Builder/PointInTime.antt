-- ===== src/Candle/Builder/PointInTime.antt =====
-- The point-in-time contract: candle_time_ms <= available_at_ms <= ingestion_time_ms.
use data_service.Common.{ℕ, ◌≤◌, ◌≡◌, max, String, Option, none, some, List, [], ◌∷◌}
use data_service.Common.Float.{Floats}
use data_service.Candle.{TickKey, CandleState}
use data_service.Candle.Builder.{Key, time_of, object_at}
use data_service.Candle.Builder.Session.{
  Session, Task, Move, tick_in, flush_in, go_on, in_tick, in_flush, make_move,
}
use data_service.Candle.Builder.Contract.{candle_violations}
use data_service.Candle.Builder.Objects.{Keeps}

-- A candle that opens no later than `latest` and does not break the contract.
abbrev pub IsTimely : {A R : Type 0} → ℕ → CandleState A R → Type 0
IsTimely latest c = (c.candle_time_ms ≤ latest) × (candle_violations c ≡ [])

-- A waiting tick is not later than `latest`.
abbrev pub IsSeen : {A : Type 0} → ℕ → Task A → Type 0
IsSeen latest (in_tick now tick ts interval rest) = ts ≤ latest
IsSeen latest (in_flush now keys) = Unit

-- The clock's reading at which a task began.
abbrev pub began : {A : Type 0} → Task A → ℕ
began (in_tick now tick ts interval rest) = now
began (in_flush now keys) = now

module _ (f : Floats) {R : Type 0} (dec : Discrete (TickKey R)) (round4 : f.Carrier → R)
    (pick : List (TickKey R) → List (TickKey R)) where
  open f use {Carrier}

  abbrev pub AreTimely : ℕ → Session Carrier R → Type 0
  AreTimely latest s = Keeps (IsTimely latest) (IsSeen latest) s

  -- The latest time of a tick that has come in.
  abbrev pub seen : ℕ → Move Carrier → ℕ
  seen latest (tick_in clock later tick) = max latest (time_of f dec round4 pick clock tick)
  seen latest _ = latest

  -- A task that goes on does so while no tick later than the reading at which it began has come in,
  -- and the clock has not gone back.
  abbrev pub IsFresh : ℕ → (String → ℕ) → (Key → ℕ) → Option (Task Carrier) → Type 0
  IsFresh latest later later_key none = Unit
  IsFresh latest later later_key (some t) =
      (latest ≤ began t)
      × ((interval : String) → began t ≤ later interval)
      × ((key : Key) → began t ≤ later_key key)

  -- A tick is not ahead of the clock, nor is any tick before it.
  abbrev pub IsSteadyMove : ℕ → Move Carrier → Session Carrier R → Type 0
  IsSteadyMove latest (tick_in clock later tick) s =
      (time_of f dec round4 pick clock tick ≤ clock.now)
      × (latest ≤ clock.now)
      × ((interval : String) → clock.now ≤ later interval)
  IsSteadyMove latest (flush_in now later) s = (latest ≤ now) × ((key : Key) → now ≤ later key)
  IsSteadyMove latest (go_on i later later_key) s =
      IsFresh latest later later_key (object_at i s.waiting)

  abbrev pub IsSteady : ℕ → List (Move Carrier) → Session Carrier R → Type 0
  IsSteady latest [] s = Unit
  IsSteady latest (m ∷ rest) s =
      IsSteadyMove latest m s × IsSteady (seen latest m) rest (make_move f dec round4 pick m s)
