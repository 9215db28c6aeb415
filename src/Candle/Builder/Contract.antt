-- ===== src/Candle/Builder/Contract.antt =====
-- src/engines/candle_builder.py: the builder's own check of the point-in-time contract,
-- `validate_point_in_time`. A message is a violation and its candle.
use data_service.Common.{ℕ, Option, none, some, List, [], ◌∷◌, ◌++◌, ltb, if◌then◌else◌}
use data_service.Candle.{CandleState}
use data_service.Candle.Builder.{CandleBuilder, object_at}

-- What `validate_point_in_time` finds wrong with a candle.
pub data Violation (C : Type 0) : Type 0 where
  not_available look_ahead after_ingestion : C → Violation C

module _ {A R : Type 0} where
  check_available : CandleState A R → Option ℕ → List (Violation (CandleState A R))
  check_available c none = not_available c ∷ []
  check_available c (some available) =
      (if ltb available c.candle_time_ms then look_ahead c ∷ [] else [])
      ++ (if ltb c.ingestion_time_ms available then after_ingestion c ∷ [] else [])

  unfoldable pub candle_violations : CandleState A R → List (Violation (CandleState A R))
  unfolding check_available
  candle_violations c = if c.finalised then check_available c c.available_at_ms else []

  unfoldable pub violations_of : List (CandleState A R) → List (Violation (CandleState A R))
  unfolding candle_violations
  violations_of [] = []
  violations_of (c ∷ cs) = candle_violations c ++ violations_of cs

  -- The objects at some places.
  unfoldable pub objects : List ℕ → List (CandleState A R) → List (CandleState A R)
  unfolding object_at
  objects [] candles = []
  objects (i ∷ is) candles = elim (object_at i candles) [
    | none ↦ objects is candles
    | some c ↦ c ∷ objects is candles
  ]

  -- `_finalised`, as the objects stand now.
  unfoldable pub finalised_candles : CandleBuilder A R → List (CandleState A R)
  unfolding objects
  finalised_candles b = objects b.finalised b.candles

  unfoldable pub validate_point_in_time : CandleBuilder A R → List (Violation (CandleState A R))
  unfolding violations_of objects
  validate_point_in_time b = violations_of (objects b.finalised b.candles)
