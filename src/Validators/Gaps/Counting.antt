-- ===== src/Validators/Gaps/Counting.antt =====
-- A series on the interval's grid: the detector reports exactly the slots that are missing.
use data_service.Common.{
  ℕ, zero, suc, ◌+◌, ◌-◌, ◌*◌, ◌≤◌, ◌<◌, ◌≡◌, refl, ◌∙◌, ap, String, true, false, Option, some,
  List, [], ◌∷◌, ◌++◌, map, leb, ltb, length, if◌then◌else◌, ok, ◌>>=◌, arith, All, lt→leb, le→leb,
  String_discrete,
}
use data_service.Common.Dict
use data_service.Validators.Gaps.{
  FloatTimes, Severity, low, medium, high, DataGapEvent, gap_event, count_missing,
  classify_gap_severity, pair_events, scan, times, to_sec, interval_seconds, detect_candle_gaps,
  detect_for,
}
use data_service.Validators.Gaps.Exact.{IsExact}

-- The times of a series that starts at `t`, with the given numbers of candles missing between
-- one candle and the next.
abbrev pub series : ℕ → ℕ → List ℕ → List ℕ
series step t [] = t ∷ []
series step t (k ∷ ks) = t ∷ series step (t + suc k * step) ks

abbrev pub grade : ℕ → Severity
grade k = if leb k 1 then low else if leb k 5 then medium else high

-- `k` candles missing after the one at `t` seconds: the first and the last of them, in milliseconds.
abbrev pub gap_after : String → ℕ → ℕ → ℕ → DataGapEvent
gap_after interval step t k = record {
  gap_start_ms = (t + step) * 1000;
  gap_end_ms = (t + k * step) * 1000;
  expected_count = k;
  actual_count = 0;
  severity = grade k;
  interval_str = interval;
}

-- The events that such a series should have.
abbrev pub gaps_of : String → ℕ → ℕ → List ℕ → List DataGapEvent
gaps_of interval step t [] = []
gaps_of interval step t (zero ∷ ks) = gaps_of interval step (t + 1 * step) ks
gaps_of interval step t (suc k ∷ ks) =
    gap_after interval step t (suc k) ∷ gaps_of interval step (t + suc (suc k) * step) ks

classify-grade : (k : ℕ) → classify_gap_severity (suc k) ≡ ok (grade (suc k))
unfolding classify_gap_severity
classify-grade k = ground arith

-- The times are seconds below 10^10, in the year 2286.
abbrev pub IsNear : ℕ → Type 0
IsNear u = u < 10000000000

module _ (n : FloatTimes) (exact : IsExact n) where
  far_apart :
      (step t d : ℕ)
      → IsNear (t + d)
      → IsNear (step + 1)
      → n.le (n.sub (n.of_int (t + d)) (n.of_int t)) (n.of_int (step + 1)) ≡ leb d (step + 1)
  far_apart step t d near small =
      let e : t + d - t ≡ d = omega arith in
      ap (λ x. n.le x (n.of_int (step + 1)))
        (exact.sub_whole (t + d) t (omega arith) (omega arith) ∙ ap n.of_int e)
      ∙ exact.le_whole d (step + 1) (omega arith) (omega arith)

  pair_events-adjacent :
      (interval : String) (step t : ℕ)
      → IsNear (t + 1 * step)
      → IsNear (step + 1)
      → pair_events n interval step (n.of_int t) (n.of_int (t + 1 * step)) ≡ ok []
  unfolding pair_events
  pair_events-adjacent interval step t near small =
      let e : leb (1 * step) (step + 1) ≡ true = le→leb _ _ (omega arith) in
      rw (far_apart step t (1 * step) near small, e) refl

  slots :
      (step t k : ℕ)
      → 0 < step
      → IsNear (t + k * step)
      → count_missing n (n.sub (n.of_int (t + k * step)) (n.of_int t)) step ≡ k - 1
  unfolding count_missing
  slots step t k pos near =
      let e : t + k * step - t ≡ k * step = omega arith in
      ap (λ x. n.floor (n.add (n.div x (n.of_int step)) n.epsilon) - 1)
        (exact.sub_whole (t + k * step) t (omega arith) (omega arith) ∙ ap n.of_int e)
      ∙ ap (λ x. x - 1) (exact.floor_whole k step pos (omega arith))

  to_ms :
      (t d : ℕ)
      → IsNear (t + d)
      → n.to_int (n.mul (n.add (n.of_int t) (n.of_int d)) (n.of_int 1000)) ≡ (t + d) * 1000
  to_ms t d near =
      ap (λ x. n.to_int (n.mul x (n.of_int 1000))) (exact.add_whole t d (omega arith))
      ∙ ap n.to_int (exact.mul_whole (t + d) 1000 (omega arith))
      ∙ exact.to_int_whole ((t + d) * 1000) (omega arith)

  gap_event-after :
      (interval : String) (step t k : ℕ)
      → IsNear (t + step)
      → IsNear (t + k * step)
      → gap_event n interval step (n.of_int t) k (grade k) ≡ gap_after interval step t k
  unfolding gap_event
  gap_event-after interval step t k first last =
      rw (to_ms t step first, to_ms t (k * step) last) refl

  pair_events-gap :
      (interval : String) (step t k : ℕ)
      → 1 < step
      → IsNear (t + suc (suc k) * step)
      → pair_events n interval step (n.of_int t) (n.of_int (t + suc (suc k) * step))
        ≡ ok (gap_after interval step t (suc k) ∷ [])
  unfolding pair_events
  pair_events-gap interval step t k big near =
      let wide : suc (suc k) * step ≡ step + (step + k * step) = grind arith in
      let last : suc k * step ≡ step + k * step = grind arith in
      let far : leb (suc (suc k) * step) (step + 1) ≡ false = lt→leb _ _ (omega (arith, wide)) in
      let more : suc (suc k) - 1 ≡ suc k = omega arith in
      let some : ltb (suc k) 1 ≡ false = ground arith in
      rw (
        far_apart step t (suc (suc k) * step) near (omega (arith, wide)),
        far,
        slots step t (suc (suc k)) (omega arith) near,
        more,
        some,
        classify-grade k,
        gap_event-after interval step t (suc k) (omega (arith, wide)) (omega (arith, wide, last)),
      )

  scan-series_cons :
      (interval : String) (step t t' : ℕ) (ks : List ℕ)
      → scan n interval step (n.of_int t ∷ map n.of_int (series step t' ks)) ≡ (
          pair_events n interval step (n.of_int t) (n.of_int t') >>= λ events.
          scan n interval step (map n.of_int (series step t' ks)) >>= λ later. ok (events ++ later))
  unfolding scan
  scan-series_cons interval step t t' [] = refl
  scan-series_cons interval step t t' (k ∷ ks) = refl

  first-IsNear : (step t : ℕ) (ks : List ℕ) → All IsNear (series step t ks) → IsNear t
  first-IsNear step t [] h = h.0
  first-IsNear step t (k ∷ ks) h = h.0

  scan-series :
      (interval : String) (step t : ℕ) (ks : List ℕ)
      → 1 < step
      → IsNear (step + 1)
      → All IsNear (series step t ks)
      → scan n interval step (map n.of_int (series step t ks)) ≡ ok (gaps_of interval step t ks)
  scan-series interval step t [] big small near = unfold scan in refl
  scan-series interval step t (zero ∷ ks) big small near = rw (
    scan-series_cons,
    pair_events-adjacent interval step t (first-IsNear step _ ks near.1) small,
    scan-series interval step (t + 1 * step) ks big small near.1,
  )
  scan-series interval step t (suc k ∷ ks) big small near = rw (
    scan-series_cons,
    pair_events-gap interval step t k big (first-IsNear step _ ks near.1),
    scan-series interval step (t + suc (suc k) * step) ks big small near.1,
  )

  times_of_seconds :
      (idx : ℕ) (ts : List ℕ) → All IsNear ts → times n idx (map some ts) ≡ ok (map n.of_int ts)
  unfolding times to_sec
  times_of_seconds idx [] h = refl
  times_of_seconds idx (t ∷ ts) h =
      let early : leb 10000000000 t ≡ false = lt→leb _ _ h.0 in
      rw (times_of_seconds (suc idx) ts h.1, early) refl

  times_of_millis :
      (idx : ℕ) (ts : List ℕ)
      → All (λ t. 10000000 ≤ t) ts
      → All IsNear ts
      → times n idx (map (λ t. some (t * 1000)) ts) ≡ ok (map n.of_int ts)
  unfolding times to_sec
  times_of_millis idx [] late h = refl
  times_of_millis idx (t ∷ ts) late h =
      let millis : leb 10000000000 (t * 1000) ≡ true = le→leb _ _ (omega (arith, late.0)) in
      rw (times_of_millis (suc idx) ts late.1 h.1, millis, exact.div_1000 t (omega (arith, h.0)))
        refl

  series-late :
      (step t : ℕ) (ks : List ℕ) → 10000000 ≤ t → All (λ u. 10000000 ≤ u) (series step t ks)
  series-late step t [] h = (h, tt)
  series-late step t (k ∷ ks) h = (h, series-late step (t + suc k * step) ks (omega arith))

  series-many :
      (g : ℕ → Option ℕ) (step t k : ℕ) (ks : List ℕ)
      → ltb (length (map g (series step t (k ∷ ks)))) 2 ≡ false
  series-many g step t k [] = refl
  series-many g step t k (j ∷ ks) = ground arith

  -- The detector on any texts of the same times.
  detect-times :
      (g : ℕ → Option ℕ) (interval : String) (seconds t : ℕ) (ks : List ℕ)
      → Dict.get String_discrete interval interval_seconds ≡ some seconds
      → 1 < seconds
      → IsNear (seconds + 1)
      → All IsNear (series seconds t ks)
      → times n 0 (map g (series seconds t ks)) ≡ ok (map n.of_int (series seconds t ks))
      → detect_candle_gaps n (map g (series seconds t ks)) interval
        ≡ ok (gaps_of interval seconds t ks)
  unfolding detect_candle_gaps
  detect-times g interval seconds t [] known big small near read = rw known
  detect-times g interval seconds t (k ∷ ks) known big small near read = rw (
    known,
    detect_for,
    series-many g seconds t k ks,
    read,
    scan-series interval seconds t (k ∷ ks) big small near,
  )

  -- On a series of whole seconds from 10^7 to 10^10 that keeps to the grid of a supported interval,
  -- with any numbers of candles missing in between, and with floats that reckon exactly with whole
  -- numbers below 2^53, the detector reports exactly the gaps, whether the times are given in seconds
  -- or in milliseconds: one event for each run of missing candles, with their number, the first
  -- and the last of them in milliseconds, and the severity.
  pub detect-series :
      (interval : String) (seconds t : ℕ) (ks : List ℕ)
      → Dict.get String_discrete interval interval_seconds ≡ some seconds
      → 1 < seconds
      → seconds < 9999999999
      → 10000000 ≤ t
      → All IsNear (series seconds t ks)
      → let expected = ok (gaps_of interval seconds t ks) in
        (detect_candle_gaps n (map some (series seconds t ks)) interval ≡ expected)
        × (detect_candle_gaps n (map (λ u. some (u * 1000)) (series seconds t ks)) interval
            ≡ expected)
  detect-series interval seconds t ks known big small late near = (
    detect-times some interval seconds t ks known big (omega arith) near
        (times_of_seconds 0 _ near),
    detect-times (λ u. some (u * 1000)) interval seconds t ks known big (omega arith) near
        (times_of_millis 0 _ (series-late seconds t ks late) near),
  )
