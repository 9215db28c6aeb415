-- ===== src/ClockSkew/Window.antt =====
-- Which samples the monitor holds.
use data_service.Common.{
  ℕ, ◌+◌, ◌*◌, ◌≤◌, ◌≡◌, refl, ap, sym, ◌∙◌, true, false, List, [], ◌∷◌, ◌++◌, leb, ltb,
  if◌then◌else◌, arith, Bool-cases, inl, inr, append_assoc, append-nil, subst, ok, map,
}
use data_service.ClockSkew.{
  Sample, ClockSkewMonitor, ClockSkewStats, prune_expired, record_event, get_skew_stats, stats_of,
  distance,
}

-- Local times do not go back, from a given one on.
abbrev pub IsRising : ℕ → List Sample → Type 0
IsRising t [] = Unit
IsRising t (s ∷ rest) = (t ≤ s.0) × IsRising s.0 rest

-- The samples that are in the window at an instant.
abbrev pub within : (window now : ℕ) → List Sample → List Sample
within window now [] = []
within window now (s ∷ rest) =
    let later = within window now rest in if ltb (s.0 + window) now then later else s ∷ later

within-id :
    (window now t : ℕ) (l : List Sample) → now ≤ t + window → IsRising t l → within window now l ≡ l
within-id window now t [] h r = refl
within-id window now t (s ∷ rest) h r =
    let kept : ltb (s.0 + window) now ≡ false = ground arith in
    rw (kept, within-id window now s.0 rest (ground arith) r.1) refl

prune-within :
    (window now t : ℕ) (l : List Sample)
    → IsRising t l
    → prune_expired window now l ≡ within window now l
unfolding prune_expired
prune-within window now t [] r = refl
prune-within window now t (s ∷ rest) r = elim (Bool-cases (ltb (s.0 + window) now)) [
  | inl old ↦ rw old (prune-within window now s.0 rest r.1)
  | inr young ↦ rw (young, within-id window now s.0 rest (ground arith) r.1) refl
]

within-append :
    (window now : ℕ) (xs ys : List Sample)
    → within window now (xs ++ ys) ≡ within window now xs ++ within window now ys
within-append window now [] ys = refl
within-append window now (s ∷ xs) ys = elim (Bool-cases (ltb (s.0 + window) now)) [
  | inl old ↦ rw old (within-append window now xs ys)
  | inr young ↦ rw (young, within-append window now xs ys) refl
]

-- What has left the window stays out of it.
within-within :
    (window now later : ℕ) (l : List Sample)
    → now ≤ later
    → within window later (within window now l) ≡ within window later l
within-within window now later [] h = refl
within-within window now later (s ∷ rest) h = elim (Bool-cases (ltb (s.0 + window) now)) [
  | inl old ↦
      let gone : ltb (s.0 + window) later ≡ true = ground arith in
      rw (old, gone) (within-within window now later rest h)
  | inr young ↦ rw (young, within-within window now later rest h) refl
]

IsRising-weaken : (a b : ℕ) (l : List Sample) → a ≤ b → IsRising b l → IsRising a l
IsRising-weaken a b [] h r = tt
IsRising-weaken a b (s ∷ rest) h r = (ground arith, r.1)

within-IsRising :
    (window now t : ℕ) (xs ys : List Sample)
    → IsRising t (xs ++ ys)
    → IsRising t (within window now xs ++ ys)
within-IsRising window now t [] ys r = r
within-IsRising window now t (s ∷ xs) ys r = elim (Bool-cases (ltb (s.0 + window) now)) [
  | inl old ↦ rw old (
      IsRising-weaken t s.0 (within window now xs ++ ys) r.0
        (within-IsRising window now s.0 xs ys r.1))
  | inr young ↦ rw young ((r.0, within-IsRising window now s.0 xs ys r.1))
]

IsRising-left : (t : ℕ) (xs ys : List Sample) → IsRising t (xs ++ ys) → IsRising t xs
IsRising-left t [] ys r = tt
IsRising-left t (s ∷ xs) ys r = (r.0, IsRising-left s.0 xs ys r.1)

-- The calls of `record`, one after the other, with the clock at each.
unfoldable pub record_all : List Sample → ClockSkewMonitor → ClockSkewMonitor
record_all [] s = s
record_all (x ∷ xs) s = record_all xs (record_event x.0 x.1 s)

abbrev pub last_time : ℕ → List Sample → ℕ
last_time t [] = t
last_time t (x ∷ xs) = last_time x.0 xs

IsRising-last :
    (t : ℕ) (h : List Sample) (x : Sample) (xs : List Sample)
    → IsRising t (h ++ x ∷ xs)
    → last_time t h ≤ x.0
IsRising-last t [] x xs r = r.0
IsRising-last t (s ∷ h) x xs r = IsRising-last s.0 h x xs r.1

last_time-snoc : (t : ℕ) (h : List Sample) (x : Sample) → last_time t (h ++ x ∷ []) ≡ x.0
last_time-snoc t [] x = refl
last_time-snoc t (s ∷ h) x = last_time-snoc s.0 h x

-- One more sample, where those before it that are in the window are held.
prune-snoc :
    (window t : ℕ) (h : List Sample) (x : Sample)
    → IsRising 0 (h ++ x ∷ [])
    → t ≤ x.0
    → prune_expired window x.0 (within window t h ++ x ∷ []) ≡ within window x.0 (h ++ x ∷ [])
prune-snoc window t h x r le =
    prune-within window x.0 0 (within window t h ++ x ∷ [])
      (within-IsRising window t 0 h (x ∷ []) r)
    ∙ within-append window x.0 (within window t h) (x ∷ [])
    ∙ ap (λ l. l ++ within window x.0 (x ∷ [])) (within-within window t x.0 h le)
    ∙ sym (within-append window x.0 h (x ∷ []))

record_all-within :
    (xs h : List Sample) (s : ClockSkewMonitor)
    → IsRising 0 (h ++ xs)
    → s.samples ≡ within (s.window_size_sec * 1000) (last_time 0 h) h
    → (record_all xs s).samples
      ≡ within (s.window_size_sec * 1000) (last_time 0 (h ++ xs)) (h ++ xs)
unfolding record_all record_event
record_all-within [] h s r e = rw (append-nil h) e
record_all-within (x ∷ xs) h s r e =
    let window = s.window_size_sec * 1000 in
    let moved : (h ++ x ∷ []) ++ xs ≡ h ++ x ∷ xs = append_assoc h (x ∷ []) xs in
    let rising = subst (IsRising 0) (sym moved) r in
    let one = IsRising-left 0 (h ++ x ∷ []) xs rising in
    let now_held =
      ap (λ l. prune_expired window x.0 (l ++ x ∷ [])) e
      ∙ prune-snoc window (last_time 0 h) h x one (IsRising-last 0 h x xs r)
      ∙ ap (λ t. within window t (h ++ x ∷ [])) (sym (last_time-snoc 0 h x)) in
    subst (λ l. (record_all xs (record_event x.0 x.1 s)).samples ≡ within window (last_time 0 l) l)
      moved (record_all-within xs (h ++ x ∷ []) (record_event x.0 x.1 s) rising now_held)

record_all-size :
    (xs : List Sample) (s : ClockSkewMonitor)
    → (record_all xs s).window_size_sec ≡ s.window_size_sec
unfolding record_all record_event
record_all-size [] s = refl
record_all-size (x ∷ xs) s = record_all-size xs (record_event x.0 x.1 s)

IsRising-nil :
    (window now : ℕ) (xs : List Sample) → IsRising 0 xs → IsRising 0 (within window now xs)
IsRising-nil window now xs r =
    let whole = subst (IsRising 0) (sym (append-nil xs)) r in
    subst (IsRising 0) (append-nil (within window now xs))
      (within-IsRising window now 0 xs [] whole)

-- A monitor that starts empty, is told of samples whose local times do not go back and is asked at a
-- later instant for its statistics, with a positive threshold, gives those of exactly the samples
-- that are in the window at that instant, in their order, and holds just these.
pub get_skew_stats-within :
    (window threshold now : ℕ) (xs : List Sample)
    → IsRising 0 xs
    → last_time 0 xs ≤ now
    → 1 ≤ threshold
    → let w = window * 1000 in
      let s = record_all xs (record { window_size_sec = window; samples = [] }) in
      (r : ClockSkewMonitor × ClockSkewStats) × (get_skew_stats now threshold s ≡ ok r)
      × (r.0.samples ≡ within w now xs)
      × (r.1 ≡ stats_of threshold w (map distance (within w now xs)))
unfolding get_skew_stats
get_skew_stats-within window threshold now xs r late positive =
    let w = window * 1000 in
    let empty : ClockSkewMonitor = record { window_size_sec = window; samples = [] } in
    let s = record_all xs empty in
    let size = record_all-size xs empty in
    let held = record_all-within xs [] empty r refl in
    let pruned : prune_expired w now s.samples ≡ within w now xs =
      ap (prune_expired w now) held
      ∙ prune-within w now 0 (within w (last_time 0 xs) xs) (IsRising-nil w (last_time 0 xs) xs r)
      ∙ within-within w (last_time 0 xs) now xs late in
    let bound : leb threshold 0 ≡ false = ground arith in
    let given : ClockSkewMonitor × ClockSkewStats = (
      record s { samples = prune_expired w now s.samples },
      stats_of threshold w (map distance (prune_expired w now s.samples)),
    ) in
    (given, rw (bound, size) refl, pruned, ap (λ l. stats_of threshold w (map distance l)) pruned)
