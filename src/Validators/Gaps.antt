-- ===== src/Validators/Gaps.antt =====
-- src/core/validators/gap_detection.py: missing candles in a series. A candle's `time` is a whole
-- number, of seconds or, from 10^10 on, of milliseconds; the source turns it into seconds as a float,
-- and reckons in floats. Python's floats are behind the interface `FloatTimes`.
pub mod Exact
pub mod Counting
use data_service.Common.{
  ℕ, suc, ◌+◌, ◌-◌, ◌*◌, String, Bool, true, false, Option, none, some, List, [], ◌∷◌, ◌++◌, leb,
  ltb, length, if◌then◌else◌, Result, ok, err, ◌>>=◌, String_discrete,
}
use data_service.Common.Dict

-- Floats that are not negative: `of_int` is `float(n)`, `to_int` is `int(x)`, `floor` is
-- `math.floor`, and `epsilon` the number 1e-9.
pub record FloatTimes : Type 1 where
  pub Carrier : Type 0
  pub of_int : ℕ → Carrier
  pub add : Carrier → Carrier → Carrier
  pub sub : Carrier → Carrier → Carrier
  pub mul : Carrier → Carrier → Carrier
  pub div : Carrier → Carrier → Carrier
  pub le : Carrier → Carrier → Bool
  pub to_int : Carrier → ℕ
  pub floor : Carrier → ℕ
  pub epsilon : Carrier

abbrev pub interval_seconds : List (String × ℕ)
interval_seconds =
    ("1m", 60)
    ∷ ("5m", 300)
    ∷ ("10m", 600)
    ∷ ("15m", 900)
    ∷ ("30m", 1800)
    ∷ ("1h", 3600)
    ∷ ("1d", 86400)
    ∷ ("1w", 604800)
    ∷ ("1M", 2592000)
    ∷ []

pub data GapError : Type 0 where
  unsupported_interval bad_missing_count : GapError
  missing_time : ℕ → GapError

pub data Severity : Type 0 where
  low medium high : Severity

pub record DataGapEvent : Type 0 where
  pub gap_start_ms : ℕ
  pub gap_end_ms : ℕ
  pub expected_count : ℕ
  pub actual_count : ℕ
  pub severity : Severity
  pub interval_str : String

unfoldable pub classify_gap_severity : ℕ → Result GapError Severity
classify_gap_severity missing =
    if ltb missing 1
    then err bad_missing_count
    else if leb missing 1
    then ok low
    else if leb missing 5
    then ok medium
    else ok high

module _ (n : FloatTimes) where
  open n use {Carrier}

  -- Values from 10^10 on are milliseconds.
  unfoldable pub to_sec : ℕ → Carrier
  to_sec t = if leb 10000000000 t then n.div (n.of_int t) (n.of_int 1000) else n.of_int t

  -- The loop that normalises the times; `idx` is the counter of `enumerate`.
  times : ℕ → List (Option ℕ) → Result GapError (List Carrier)
  unfolding to_sec
  times idx [] = ok []
  times idx (none ∷ candles) = err (missing_time idx)
  times idx (some t ∷ candles) = do rest ← times (suc idx) candles; ok (to_sec t ∷ rest)

  -- `_count_missing`
  unfoldable pub count_missing : Carrier → ℕ → ℕ
  count_missing diff step = n.floor (n.add (n.div diff (n.of_int step)) n.epsilon) - 1

  unfoldable pub gap_event : String → ℕ → Carrier → ℕ → Severity → DataGapEvent
  gap_event interval step current missing severity = record {
    gap_start_ms = n.to_int (n.mul (n.add current (n.of_int step)) (n.of_int 1000));
    gap_end_ms = n.to_int (n.mul (n.add current (n.of_int (missing * step))) (n.of_int 1000));
    expected_count = missing;
    actual_count = 0;
    severity = severity;
    interval_str = interval;
  }

  -- One round of the scan: the events that the pair of candles at `current` and `next` adds.
  unfoldable pub pair_events : String → ℕ → Carrier → Carrier → Result GapError (List DataGapEvent)
  unfolding count_missing gap_event
  pair_events interval step current next =
      let diff = n.sub next current in
      if n.le diff (n.of_int (step + 1))
      then ok []
      else let missing = count_missing diff step in
        if ltb missing 1 then ok [] else do
          severity ← classify_gap_severity missing
          ok (gap_event interval step current missing severity ∷ [])

  unfoldable pub scan : String → ℕ → List Carrier → Result GapError (List DataGapEvent)
  scan interval step [] = ok []
  scan interval step (current ∷ []) = ok []
  scan interval step (current ∷ next ∷ rest) = do
    events ← pair_events interval step current next
    later ← scan interval step (next ∷ rest)
    ok (events ++ later)

  detect_for : String → Option ℕ → List (Option ℕ) → Result GapError (List DataGapEvent)
  unfolding times scan
  detect_for interval none candles = err unsupported_interval
  detect_for interval (some seconds) candles =
      if ltb (length candles) 2 then ok [] else do ts ← times 0 candles; scan interval seconds ts

  -- A candle is given by its `time` field, which may be missing.
  unfoldable pub detect_candle_gaps : List (Option ℕ) → String → Result GapError (List DataGapEvent)
  unfolding detect_for
  detect_candle_gaps candles interval =
      detect_for interval (Dict.get String_discrete interval interval_seconds) candles
