-- ===== src/Candle/Builder/Opened.antt =====
-- The candle that a tick opens, and what a candle that is finalised too early does to the contract.
use data_service.Common.{
  ℕ, zero, suc, ◌<◌, ◌≡◌, ◌≢◌, refl, sym, subst, String, none, some, List, [], ◌∷◌, ◌++◌, arith,
  length,
}
use data_service.Common.Dict
use data_service.Common.Float.{Floats}
use data_service.Candle.{Tick, TickKey, CandleState, apply_tick}
use data_service.Candle.Frame.{apply_tick-IsSameSlot}
use data_service.Candle.Builder.{
  CandleBuilder, Key, Key_discrete, instrument_of, candle_open_ms, object_at, change_at, apply_at,
  use_tick, start_candle, closed_at, new_candle,
}
use data_service.Candle.Builder.Contract.{candle_violations, violations_of, objects}
use data_service.Candle.Builder.Objects.{opened_by}

append-ne_nil {ℓ} : {A : Type ℓ} (xs ys : List A) → ys ≢ [] → xs ++ ys ≢ []
append-ne_nil [] ys h = h
append-ne_nil (x ∷ xs) ys h = λ e. cc

append-ne_nil_left {ℓ} : {A : Type ℓ} (xs ys : List A) → xs ≢ [] → xs ++ ys ≢ []
append-ne_nil_left [] ys h = absurd (h refl)
append-ne_nil_left (x ∷ xs) ys h = λ e. cc

object_at-snoc {ℓ} :
    {C : Type ℓ} (cs : List C) (c : C) → object_at (length cs) (cs ++ c ∷ []) ≡ some c
unfolding object_at
object_at-snoc [] c = refl
object_at-snoc (x ∷ cs) c = object_at-snoc cs c

pub object_at-change_at {ℓ} :
    {C : Type ℓ} (g : C → C) (i : ℕ) (cs : List C) (c : C)
    → object_at i cs ≡ some c
    → object_at i (change_at g i cs) ≡ some (g c)
unfolding object_at change_at
object_at-change_at g i [] c h = cc
object_at-change_at g zero (x ∷ cs) c h = cc
object_at-change_at g (suc i) (x ∷ cs) c h = object_at-change_at g i cs c h

module _ {A R : Type 0} where
  pub violations-objects :
      (is : List ℕ) (i : ℕ) (cs : List (CandleState A R)) (c : CandleState A R)
      → object_at i cs ≡ some c
      → candle_violations c ≢ []
      → violations_of (objects (is ++ i ∷ []) cs) ≢ []
  unfolding objects violations_of
  violations-objects [] i cs c h bad =
      subst (λ o. violations_of (elim o [ none ↦ [] | some x ↦ x ∷ [] ]) ≢ []) (sym h)
        (append-ne_nil_left (candle_violations c) [] bad)
  violations-objects (j ∷ is) i cs c h bad =
      elim (object_at j cs)
        as (λ o.
          violations_of
            (elim o [ none ↦ objects (is ++ i ∷ []) cs | some x ↦ x ∷ objects (is ++ i ∷ []) cs ])
          ≢ []) [
            | none ↦ violations-objects is i cs c h bad
            | some x ↦ append-ne_nil (candle_violations x) _ (violations-objects is i cs c h bad)
          ]

  pub closed_at-violates :
      (now later : ℕ) (c : CandleState A R)
      → now < c.candle_time_ms
      → candle_violations (closed_at now later c) ≢ []
  unfolding candle_violations
  closed_at-violates now later c h = λ e. ground arith

module _ (f : Floats) {R : Type 0} (dec : Discrete (TickKey R)) (round4 : f.Carrier → R)
    (pick : List (TickKey R) → List (TickKey R)) where
  open f use {Carrier}

  -- After the tick a new candle of its period is the active one.
  pub record IsOpen (key : Key) (open_ms : ℕ) (b : CandleBuilder Carrier R) : Type 0 where
    pub place : ℕ
    pub candle : CandleState Carrier R
    pub active : Dict.get Key_discrete key b.active ≡ some place
    pub there : object_at place b.candles ≡ some candle
    pub opens : candle.candle_time_ms ≡ open_ms

  apply_at-snoc :
      (tick : Tick Carrier) (cs : List (CandleState Carrier R)) (c : CandleState Carrier R)
      → object_at (length cs) (apply_at f dec round4 pick tick (length cs) (cs ++ c ∷ [])).0
        ≡ some (apply_tick f dec round4 pick tick c).0
  unfolding apply_at object_at
  apply_at-snoc tick [] c = refl
  apply_at-snoc tick (x ∷ cs) c = apply_at-snoc tick cs c

  pub start_candle-IsOpen :
      (created : ℕ) (tick : Tick Carrier) (ts : ℕ) (interval : String) (b : CandleBuilder Carrier R)
      → IsOpen
          (instrument_of f dec round4 pick tick, interval)
          (candle_open_ms ts interval)
          (start_candle f dec round4 pick created tick ts interval b)
  unfolding start_candle use_tick new_candle
  start_candle-IsOpen created tick ts interval b =
      let c = opened_by f dec round4 pick tick ts interval created in
      record {
        place = length b.candles;
        candle = (apply_tick f dec round4 pick tick c).0;
        active =
            Dict.get-put_self Key_discrete (instrument_of f dec round4 pick tick, interval)
              (length b.candles) b.active;
        there = apply_at-snoc tick b.candles c;
        opens = (apply_tick-IsSameSlot f dec round4 pick tick c).time;
      }
