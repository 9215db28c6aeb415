-- ===== src/SlidingWindow/Bound.antt =====
-- The promise of the sliding-window limiter: no window of time holds more granted requests of a
-- consumer than the limit, and consumers do not disturb each other.
use data_service.Common.{
  ℕ, ◌+◌, ◌*◌, ◌≤◌, ◌<◌, ◌≡◌, refl, sym, ◌∙◌, ap, subst, String, Bool, true, false, none,
  append_assoc, append-nil, List, [], ◌∷◌, ◌++◌, leb, length, length-append, String_discrete,
  Bool-cases, inl, inr, arith, if_pos, if_neg, if◌then◌else◌,
}
use data_service.SlidingWindow.Attempts.{Attempt, granted, count_within, IsMonotone}
use data_service.SlidingWindow.{Limiter, window_of, prune, decide, is_allowed, second}
use data_service.SlidingWindow.Windows.{
  is_allowed-own, is_allowed-other, is_allowed-answer, is_allowed-defaults,
}

count_within-append :
    (at span : ℕ) (xs ys : List ℕ)
    → count_within at span (xs ++ ys) ≡ count_within at span xs + count_within at span ys
unfolding count_within
count_within-append at span [] ys = omega arith
count_within-append at span (x ∷ xs) ys = ground (arith, count_within-append at span xs ys)

count_within-length : (at span : ℕ) (xs : List ℕ) → count_within at span xs ≤ length xs
unfolding count_within
count_within-length at span [] = omega arith
count_within-length at span (x ∷ xs) = ground (arith, count_within-length at span xs)

-- What is pruned counts no more.
count_within-prune :
    (now at span : ℕ) (xs : List ℕ)
    → now ≤ at
    → count_within at span (prune now span xs) ≡ count_within at span xs
unfolding count_within prune
count_within-prune now at span [] le = refl
count_within-prune now at span (x ∷ xs) le = ground (arith, count_within-prune now at span xs le)

-- A window and the granted times so far: at every later time the window counts what they do.
record IsTrue (limit span last : ℕ) (past w : List ℕ) : Type 0 where
  same : (at : ℕ) → last ≤ at → count_within at span past ≡ count_within at span w
  bounded : (at : ℕ) → count_within at span past ≤ limit

abbrev extended : ℕ → Bool → List ℕ → List ℕ
extended now allowed past = if allowed then past ++ now ∷ [] else past

module _ (limit span last now : ℕ) (past w : List ℕ) (le : last ≤ now)
    (h : IsTrue limit span last past w) where
  refused-IsTrue : IsTrue limit span now past (prune now span w)
  refused-IsTrue = record {
    same = λ at late. omega (arith, h.same at (omega arith), count_within-prune now at span w late);
    bounded = h.bounded;
  }

  granted-same :
      (at : ℕ)
      → now ≤ at
      → count_within at span (past ++ now ∷ [])
        ≡ count_within at span (prune now span w ++ now ∷ [])
  granted-same at late = omega (
    arith,
    h.same at (omega arith),
    count_within-prune now at span w late,
    count_within-append at span past (now ∷ []),
    count_within-append at span (prune now span w) (now ∷ []),
  )

  early-count : (at : ℕ) → at < now → count_within at span (now ∷ []) ≡ 0
  unfolding count_within
  early-count at early = ground arith

  granted-bounded :
      length (prune now span w) < limit → (at : ℕ) → count_within at span (past ++ now ∷ []) ≤ limit
  granted-bounded room at = elim (Bool-cases (leb now at)) [
    | inl late ↦ omega (
      arith,
      granted-same at (ground arith),
      count_within-length at span (prune now span w ++ now ∷ []),
      length-append (prune now span w) (now ∷ []),
    )
    | inr early ↦ omega (
      arith,
      h.bounded at,
      early-count at (ground arith),
      count_within-append at span past (now ∷ []),
    )
  ]

  decide-IsTrue :
      let (w', allowed) = decide now limit (prune now span w) in
      IsTrue limit span now (extended now allowed past) w'
  unfolding decide
  decide-IsTrue = elim (Bool-cases (leb limit (length (prune now span w)))) [
    | inl full ↦ rw full refused-IsTrue
    | inr room ↦ rw room (record { same = granted-same; bounded = granted-bounded (ground arith) })
  ]

later-IsTrue :
    (limit span last now : ℕ) (past w : List ℕ)
    → last ≤ now
    → IsTrue limit span last past w
    → IsTrue limit span now past w
later-IsTrue limit span last now past w le h = record {
  same = λ at late. h.same at (omega arith);
  bounded = h.bounded;
}

is_allowed-IsTrue :
    (limit sec last now : ℕ) (c q : String) (past : List ℕ) (l : Limiter)
    → c ≡ q
    → l.default_limit ≡ limit
    → l.default_window_sec ≡ sec
    → last ≤ now
    → IsTrue limit (sec * second) last past (window_of q l)
    → let (l', allowed) = is_allowed now c none none l in
      IsTrue limit (sec * second) now (extended now allowed past) (window_of q l')
unfolding window_of
is_allowed-IsTrue limit sec last now c q past l e el es le h =
    rw (e, is_allowed-own now q l, is_allowed-answer now q l, el, es)
      (decide-IsTrue limit (sec * second) last now past (window_of q l) le h)

snoc_then :
    (now : ℕ) (allowed : Bool) (past later : List ℕ)
    → past ++ (if allowed then now ∷ later else later) ≡ extended now allowed past ++ later
snoc_then now true past later = sym (append_assoc past (now ∷ []) later)
snoc_then now false past later = refl

run-IsTrue :
    (limit sec last : ℕ) (q : String) (past : List ℕ) (attempts : List Attempt) (l : Limiter)
    → l.default_limit ≡ limit
    → l.default_window_sec ≡ sec
    → IsMonotone last attempts
    → IsTrue limit (sec * second) last past (window_of q l)
    → (at : ℕ) → count_within at (sec * second) (past ++ granted q attempts l) ≤ limit
unfolding granted
run-IsTrue limit sec last q past [] l el es m h at =
    subst (λ p. count_within at (sec * second) p ≤ limit) (sym (append-nil past)) (h.bounded at)
run-IsTrue limit sec last q past (a ∷ rest) l el es m h at =
    let l' = (is_allowed a.now a.consumer none none l).0 in
    let (dl, ds) = is_allowed-defaults a.now a.consumer l in
    elim (String_discrete a.consumer q) [
      | yes e ↦
          rw (if_pos (String_discrete a.consumer q) e, snoc_then)
            (run-IsTrue limit sec a.now q _ rest l' (dl ∙ el) (ds ∙ es) m.1
              (is_allowed-IsTrue limit sec last a.now a.consumer q past l e el es m.0 h) at)
      | no n ↦ rw (if_neg (String_discrete a.consumer q) n) (
          run-IsTrue limit sec a.now q past rest l' (dl ∙ el) (ds ∙ es) m.1
            (rw (is_allowed-other a.now a.consumer q l n)
              (later-IsTrue limit (sec * second) last a.now past _ m.0 h))
            at)
    ]

-- If a consumer has no request on record and the clock does not go back, then among its requests
-- that are granted never more than the limit lie in one window of the given span, wherever the
-- window ends, whatever requests of other consumers come between.
pub granted-bounded_within :
    (before : ℕ) (q : String) (attempts : List Attempt) (l : Limiter)
    → window_of q l ≡ []
    → IsMonotone before attempts
    → (at : ℕ)
    → count_within at (l.default_window_sec * second) (granted q attempts l) ≤ l.default_limit
unfolding count_within
granted-bounded_within before q attempts l new m at =
    run-IsTrue l.default_limit l.default_window_sec before q [] attempts l refl refl m
      (record { same = λ t le. ap (count_within t _) (sym new); bounded = λ t. omega arith }) at
