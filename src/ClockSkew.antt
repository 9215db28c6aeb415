-- ===== src/ClockSkew.antt =====
-- src/monitors/clock_skew_monitor.py: how far the clocks of the providers are from the local one, over
-- a sliding window. The clock is an argument, in whole milliseconds. Twice the median is kept, so
-- that the mean of the two middle values is whole.
pub mod Window
pub mod Stats
use data_service.Common.{
  ℕ, suc, zero, ◌+◌, ◌-◌, ◌*◌, ◌/◌, ◌%◌, min, max, Bool, true, false, Option, none, some, List, [],
  ◌∷◌, ◌++◌, leb, ltb, ◌==◌, if◌then◌else◌, Result, ok, err, length, map,
}

-- The local time and that of the event.
abbrev pub Sample : Type 0
Sample = ℕ × ℕ

pub record ClockSkewMonitor : Type 0 where
  pub window_size_sec : ℕ
  pub samples : List Sample

pub data MonitorError : Type 0 where
  value_error : MonitorError

unfoldable pub init : ℕ → Result MonitorError ClockSkewMonitor
init window =
    if leb window 0 then err value_error else ok (record { window_size_sec = window; samples = [] })

-- `_prune_expired`: from the left, up to the first sample in the window.
unfoldable pub prune_expired : (window now : ℕ) → List Sample → List Sample
prune_expired window now [] = []
prune_expired window now (s ∷ rest) =
    let later = prune_expired window now rest in if ltb (s.0 + window) now then later else s ∷ rest

-- The method `record`.
unfoldable pub record_event : (now event : ℕ) → ClockSkewMonitor → ClockSkewMonitor
unfolding prune_expired
record_event now event s = record s {
  samples = prune_expired (s.window_size_sec * 1000) now (s.samples ++ (now, event) ∷ []);
}

abbrev pub distance : Sample → ℕ
distance (local, event) = if leb local event then event - local else local - event

-- `sorted`
unfoldable pub insert : ℕ → List ℕ → List ℕ
insert x [] = x ∷ []
insert x (y ∷ ys) = let rest = insert x ys in if leb x y then x ∷ (y ∷ ys) else y ∷ rest

unfoldable pub sort : List ℕ → List ℕ
unfolding insert
sort [] = []
sort (x ∷ xs) = insert x (sort xs)

-- The element at a position, 0 past the end.
unfoldable pub nth : ℕ → List ℕ → ℕ
nth i [] = 0
nth zero (x ∷ xs) = x
nth (suc i) (x ∷ xs) = nth i xs

-- Twice `statistics.median`, of values that are not none.
unfoldable pub double_median : List ℕ → ℕ
unfolding sort nth
double_median xs =
    let ys = sort xs in
    let n = length xs in
    if n % 2 == 1 then 2 * nth (n / 2) ys else nth (n / 2 - 1) ys + nth (n / 2) ys

-- `max` and `min`
unfoldable pub highest : ℕ → List ℕ → ℕ
highest m [] = m
highest m (x ∷ xs) = highest (max m x) xs

unfoldable pub lowest : ℕ → List ℕ → ℕ
lowest m [] = m
lowest m (x ∷ xs) = lowest (min m x) xs

pub record ClockSkewStats : Type 0 where
  pub sample_count : ℕ
  pub double_median_skew_ms : ℕ
  pub max_skew_ms : ℕ
  pub min_skew_ms : ℕ
  pub window_size_ms : ℕ
  pub is_acceptable : Bool

unfoldable pub stats_of : (threshold window : ℕ) → List ℕ → ClockSkewStats
unfolding double_median highest lowest
stats_of threshold window [] = record {
  sample_count = 0;
  double_median_skew_ms = 0;
  max_skew_ms = 0;
  min_skew_ms = 0;
  window_size_ms = window;
  is_acceptable = true;
}
stats_of threshold window (x ∷ xs) =
    let median = double_median (x ∷ xs) in
    record {
      sample_count = length (x ∷ xs);
      double_median_skew_ms = median;
      max_skew_ms = highest x xs;
      min_skew_ms = lowest x xs;
      window_size_ms = window;
      is_acceptable = leb median (2 * threshold);
    }

-- The statistics come with the pruned monitor.
unfoldable pub get_skew_stats :
    (now threshold : ℕ) → ClockSkewMonitor → Result MonitorError (ClockSkewMonitor × ClockSkewStats)
unfolding prune_expired stats_of
get_skew_stats now threshold s =
    let window = s.window_size_sec * 1000 in
    let samples = prune_expired window now s.samples in
    if leb threshold 0
    then err value_error
    else ok (record s { samples = samples }, stats_of threshold window (map distance samples))

unfoldable pub is_skew_acceptable :
    (now threshold : ℕ) → ClockSkewMonitor → Result MonitorError (ClockSkewMonitor × Bool)
unfolding get_skew_stats
is_skew_acceptable now threshold s = elim (get_skew_stats now threshold s) [
  | err e ↦ err e
  | ok r ↦ ok (r.0, r.1.is_acceptable)
]
