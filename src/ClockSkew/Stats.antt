-- ===== src/ClockSkew/Stats.antt =====
-- What the median of the samples says of them.
use data_service.Common.{
  ok_inj, ℕ, zero, suc, ◌+◌, ◌-◌, ◌*◌, ◌/◌, ◌%◌, ◌≤◌, ◌<◌, ◌≡◌, refl, true, false, List, [], ◌∷◌,
  leb, ◌==◌, if◌then◌else◌, arith, Bool-cases, inl, inr, Bool, length, subst, map, ok,
}
use data_service.ClockSkew.{
  insert, sort, nth, double_median, stats_of, distance, ClockSkewMonitor, ClockSkewStats,
  get_skew_stats, prune_expired,
}

-- How many values are at most a bound.
abbrev pub at_most : ℕ → List ℕ → ℕ
at_most bound [] = 0
at_most bound (x ∷ xs) = (if leb x bound then 1 else 0) + at_most bound xs

abbrev IsUp : ℕ → List ℕ → Type 0
IsUp a [] = Unit
IsUp a (x ∷ xs) = (a ≤ x) × IsUp x xs

at_most-insert : (bound x : ℕ) (l : List ℕ) → at_most bound (insert x l) ≡ at_most bound (x ∷ l)
unfolding insert
at_most-insert bound x [] = refl
at_most-insert bound x (y ∷ ys) = elim (Bool-cases (leb x y)) [
  | inl e ↦ rw e refl
  | inr e ↦ rw e (omega (arith, at_most-insert bound x ys))
]

at_most-sort : (bound : ℕ) (l : List ℕ) → at_most bound (sort l) ≡ at_most bound l
unfolding sort
at_most-sort bound [] = refl
at_most-sort bound (x ∷ xs) = omega (arith, at_most-insert bound x (sort xs), at_most-sort bound xs)

length-insert : (x : ℕ) (l : List ℕ) → length (insert x l) ≡ suc (length l)
unfolding insert
length-insert x [] = refl
length-insert x (y ∷ ys) = elim (Bool-cases (leb x y)) [
  | inl e ↦ rw e refl
  | inr e ↦ rw (e, length-insert x ys) refl
]

length-sort : (l : List ℕ) → length (sort l) ≡ length l
unfolding sort
length-sort [] = refl
length-sort (x ∷ xs) = rw (length-insert x (sort xs), length-sort xs) refl

insert-IsUp : (a x : ℕ) (l : List ℕ) → a ≤ x → IsUp a l → IsUp a (insert x l)
unfolding insert
insert-IsUp a x [] h up = (h, tt)
insert-IsUp a x (y ∷ ys) h up = elim (Bool-cases (leb x y)) [
  | inl e ↦ rw e ((h, (ground arith, up.1)))
  | inr e ↦ rw e ((up.0, insert-IsUp y x ys (ground arith) up.1))
]

sort-IsUp : (l : List ℕ) → IsUp 0 (sort l)
unfolding sort
sort-IsUp [] = tt
sort-IsUp (x ∷ xs) = insert-IsUp 0 x (sort xs) (omega arith) (sort-IsUp xs)

nth-ge : (a i : ℕ) (l : List ℕ) → IsUp a l → i < length l → a ≤ nth i l
unfolding nth
nth-ge a i [] up h = ground arith
nth-ge a zero (x ∷ xs) up h = up.0
nth-ge a (suc i) (x ∷ xs) up h = let rest = nth-ge x i xs up.1 (omega arith) in omega (arith, up.0)

-- In a sorted list, the values up to a position are at most its value, and those from it on are not
-- less.
nth-at_most :
    (bound a i : ℕ) (l : List ℕ)
    → IsUp a l
    → i < length l
    → nth i l ≤ bound
    → suc i ≤ at_most bound l
unfolding nth
nth-at_most bound a i [] up h k = ground arith
nth-at_most bound a zero (x ∷ xs) up h k = ground arith
nth-at_most bound a (suc i) (x ∷ xs) up h k =
    let rest = nth-at_most bound x i xs up.1 (omega arith) k in
    let low = nth-ge x i xs up.1 (omega arith) in ground arith

above-at_most : (bound a : ℕ) (l : List ℕ) → IsUp a l → bound < a → at_most bound l ≡ 0
above-at_most bound a [] up h = refl
above-at_most bound a (x ∷ xs) up h =
    let rest = above-at_most bound x xs up.1 (omega arith) in ground arith

nth-above :
    (bound a i : ℕ) (l : List ℕ) → IsUp a l → i < length l → bound < nth i l → at_most bound l ≤ i
unfolding nth
nth-above bound a i [] up h k = ground arith
nth-above bound a zero (x ∷ xs) up h k = let rest = above-at_most bound x xs up.1 k in ground arith
nth-above bound a (suc i) (x ∷ xs) up h k =
    let rest = nth-above bound x i xs up.1 (omega arith) k in ground arith

nth-suc : (a i : ℕ) (l : List ℕ) → IsUp a l → suc i < length l → nth i l ≤ nth (suc i) l
unfolding nth
nth-suc a i [] up h = ground arith
nth-suc a zero (x ∷ []) up h = ground arith
nth-suc a zero (x ∷ (y ∷ ys)) up h = up.1.0
nth-suc a (suc i) (x ∷ xs) up h = nth-suc x i xs up.1 (omega arith)

-- Twice the median of a sorted list.
abbrev middle : List ℕ → ℕ
middle ys =
    let n = length ys in
    if n % 2 == 1 then 2 * nth (n / 2) ys else nth (n / 2 - 1) ys + nth (n / 2) ys

low_half :
    (bound : ℕ) (ys : List ℕ)
    → IsUp 0 ys
    → 1 ≤ length ys
    → middle ys ≤ 2 * bound
    → length ys ≤ 2 * at_most bound ys
low_half bound ys up some_values h = elim (Bool-cases (length ys % 2 == 1)) [
  | inl odd ↦
      let k = length ys / 2 in
      let small : nth k ys ≤ bound = omega (arith, rw odd at h) in
      let many = nth-at_most bound 0 k ys up (ground arith) small in ground arith
  | inr even ↦
      let k = length ys / 2 in
      let half : length ys ≡ 2 * k = ground arith in
      let back : suc (k - 1) ≡ k = omega arith in
      let up_to : nth (k - 1) ys ≤ nth k ys =
        subst (λ j. nth (k - 1) ys ≤ nth j ys) back (nth-suc 0 (k - 1) ys up (omega arith)) in
      let small : nth (k - 1) ys ≤ bound = omega (arith, rw even at h, up_to) in
      let many = nth-at_most bound 0 (k - 1) ys up (omega arith) small in omega arith
]

high_half :
    (bound : ℕ) (ys : List ℕ)
    → IsUp 0 ys
    → 1 ≤ length ys
    → 2 * bound < middle ys
    → 2 * at_most bound ys ≤ length ys
high_half bound ys up some_values h = elim (Bool-cases (length ys % 2 == 1)) [
  | inl odd ↦
      let k = length ys / 2 in
      let large : bound < nth k ys = omega (arith, rw odd at h) in
      let few = nth-above bound 0 k ys up (ground arith) large in ground arith
  | inr even ↦
      let k = length ys / 2 in
      let half : length ys ≡ 2 * k = ground arith in
      let back : suc (k - 1) ≡ k = omega arith in
      let up_to : nth (k - 1) ys ≤ nth k ys =
        subst (λ j. nth (k - 1) ys ≤ nth j ys) back (nth-suc 0 (k - 1) ys up (omega arith)) in
      let large : bound < nth k ys = omega (arith, rw even at h, up_to) in
      let few = nth-above bound 0 k ys up (omega arith) large in omega arith
]

middle-double_median : (l : List ℕ) → double_median l ≡ middle (sort l)
unfolding double_median
middle-double_median l = rw (length-sort l) refl

-- What an answer says: at least half of the values are at most the bound, or at least half above it.
abbrev pub IsHalved : Bool → ℕ → List ℕ → Type 0
IsHalved true bound l = length l ≤ 2 * at_most bound l
IsHalved false bound l = 2 * at_most bound l ≤ length l

stats_of-IsHalved :
    (threshold window : ℕ) (l : List ℕ)
    → IsHalved (stats_of threshold window l).is_acceptable threshold l
unfolding stats_of
stats_of-IsHalved threshold window [] = omega arith
stats_of-IsHalved threshold window (x ∷ xs) =
    let l = x ∷ xs in
    let up = sort-IsUp l in
    let size = length-sort l in
    let median = middle-double_median l in
    let count = at_most-sort threshold l in
    elim (Bool-cases (leb (double_median l) (2 * threshold))) [
      | inl e ↦
          rw e
            (let most = low_half threshold (sort l) up (omega arith) (ground arith) in omega arith)
      | inr e ↦
          rw e
            (let few = high_half threshold (sort l) up (omega arith) (ground arith) in omega arith)
    ]

count_of :
    (threshold window : ℕ) (l : List ℕ) → (stats_of threshold window l).sample_count ≡ length l
unfolding stats_of
count_of threshold window [] = refl
count_of threshold window (x ∷ xs) = refl

-- The answer of the monitor, whatever its clock and its samples are: it counts the samples that it
-- still holds, and calls the skew acceptable only if at least half of them are off by no more than
-- the threshold, and not acceptable only if at least half of them are off by more.
pub get_skew_stats-IsHalved :
    (now threshold : ℕ) (s : ClockSkewMonitor) (r : ClockSkewMonitor × ClockSkewStats)
    → get_skew_stats now threshold s ≡ ok r
    → let l = map distance r.0.samples in
      (r.1.sample_count ≡ length l) × IsHalved r.1.is_acceptable threshold l
unfolding get_skew_stats
get_skew_stats-IsHalved now threshold s r h = elim (Bool-cases (leb threshold 0)) [
  | inl e ↦ let bad = rw e at h in cc
  | inr e ↦
      let window = s.window_size_sec * 1000 in
      let l = map distance (prune_expired window now s.samples) in
      subst
        (λ (x : ClockSkewMonitor × ClockSkewStats).
          (x.1.sample_count ≡ length (map distance x.0.samples))
          × IsHalved x.1.is_acceptable threshold (map distance x.0.samples))
        (ok_inj (rw e at h)) ((count_of threshold window l, stats_of-IsHalved threshold window l))
]
