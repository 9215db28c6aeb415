-- ===== src/Tests/Clocks.antt =====
-- The monitor of clock skew at concrete inputs.
use data_service.Common.{◌≡◌, refl, true, List, [], ◌∷◌, map, length, ok, arith}
use data_service.ClockSkew.{
  Sample, ClockSkewMonitor, ClockSkewStats, get_skew_stats, stats_of, distance,
}
use data_service.ClockSkew.Window.{record_all, within, get_skew_stats-within}
use data_service.ClockSkew.Stats.{IsHalved, get_skew_stats-IsHalved}

abbrev seen : List Sample
seen = (1000, 900) ∷ (50000, 50400) ∷ (70000, 69000) ∷ []

abbrev empty : ClockSkewMonitor
empty = record { window_size_sec = 60; samples = [] }

get_skew_stats-within_example :
    (r : ClockSkewMonitor × ClockSkewStats) × (get_skew_stats 71000 500 (record_all seen empty)
      ≡ ok r)
    × (r.0.samples ≡ within 60000 71000 seen)
    × (r.1 ≡ stats_of 500 60000 (map distance (within 60000 71000 seen)))
get_skew_stats-within_example =
    get_skew_stats-within 60 500 71000 seen (omega arith, (omega arith, (omega arith, tt)))
      (omega arith) (omega arith)

abbrev full : ClockSkewMonitor
full = record empty { samples = seen }

abbrev pruned : ClockSkewMonitor
pruned = record empty { samples = (50000, 50400) ∷ (70000, 69000) ∷ [] }

abbrev stats : ClockSkewStats
stats = record {
  sample_count = 2;
  double_median_skew_ms = 1400;
  max_skew_ms = 1000;
  min_skew_ms = 400;
  window_size_ms = 60000;
  is_acceptable = true;
}

answered : get_skew_stats 71000 700 full ≡ ok (pruned, stats)
unfolding get_skew_stats
answered = refl

get_skew_stats-IsHalved_example :
    (stats.sample_count ≡ length (map distance pruned.samples))
    × IsHalved true 700 (map distance pruned.samples)
get_skew_stats-IsHalved_example = get_skew_stats-IsHalved 71000 700 full (pruned, stats) answered
