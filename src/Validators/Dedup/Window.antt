-- ===== src/Validators/Dedup/Window.antt =====
-- What counts as a duplicate: a hash that was recorded within the window.
use data_service.Common.{
  ℕ, ◌+◌, ◌*◌, ◌≤◌, ◌≡◌, refl, sym, ◌∙◌, ap, String, true, false, not, ◌↔◌, Option, none, some,
  List, [], ◌∷◌, arith, All, Option-cases, inl, inr, String_discrete,
}
use data_service.Common.Dict
use data_service.Common.Dict.{IsDistinct}
use data_service.Validators.Dedup.{DedupEntry, DedupStore, evict, check_and_record, hour, answer}
use data_service.Validators.Dedup.Validity.{IsValid, IsPast, check_and_record-IsValid}
use data_service.Validators.Dedup.Eviction.{in_window, store-in_window}

answer-flags :
    (now : ℕ) (hash : String) (s : DedupStore) (o : Option ℕ)
    → (((answer now hash s o).1 ≡ true) ↔ ((at : ℕ) × (o ≡ some at)))
      × ((answer now hash s o).2 ≡ not (answer now hash s o).1)
unfolding answer
answer-flags now hash s none = ((λ e. absurd (ground arith), λ e. absurd (ground arith)), refl)
answer-flags now hash s (some at) = ((λ e. (at, refl), λ e. refl), refl)

in_window-some :
    (now window : ℕ) (o : Option ℕ)
    → ((at : ℕ) × (in_window now window o ≡ some at))
      ↔ ((at : ℕ) × (o ≡ some at) × (now ≤ at + window))
in_window-some now window none = (λ e. absurd (ground arith), λ e. absurd (ground arith))
in_window-some now window (some at) = (λ e. (at, refl, ground arith), λ e. (at, ground arith))

-- On a store whose dictionary and queue are in step, a hash is reported as a duplicate exactly if
-- the store holds a record of it that is at most the window old, and it is recorded exactly if it
-- is not a duplicate.
pub check_and_record-duplicate :
    (now hours : ℕ) (hash : String) (s : DedupStore)
    → IsValid s
    → (((check_and_record now hash hours s).1 ≡ true)
        ↔ ((at : ℕ) × (Dict.get String_discrete hash s.seen ≡ some at) × (now ≤ at + hours * hour)))
      × ((check_and_record now hash hours s).2 ≡ not (check_and_record now hash hours s).1)
unfolding check_and_record
check_and_record-duplicate now hours hash s v =
    let s' = evict now (hours * hour) s.seen s.order in
    let found = Dict.get String_discrete hash s'.seen in
    let kept = store-in_window now (hours * hour) hash s v in
    let (flag, other) = answer-flags now hash s' found in
    let window = in_window-some now (hours * hour) (Dict.get String_discrete hash s.seen) in
    (
      (
        λ e. let (at, f) = flag.0 e in window.0 (at, sym kept ∙ f),
        λ e. let (at, f) = window.1 e in flag.1 (at, kept ∙ f),
      ),
      other,
    )

-- The observations that arrive, each with its time.
pub record Observation : Type 0 where
  pub now : ℕ
  pub hash : String

abbrev pub observe : ℕ → List Observation → DedupStore → DedupStore
observe hours [] s = s
observe hours (o ∷ rest) s = observe hours rest (check_and_record o.now o.hash hours s).0

-- The clock does not go back, and stays at or below `limit`.
abbrev pub IsMonotone : ℕ → ℕ → List Observation → Type 0
IsMonotone now limit [] = now ≤ limit
IsMonotone now limit (o ∷ rest) = (now ≤ o.now) × IsMonotone o.now limit rest

answer-keeps :
    (now at : ℕ) (hash other : String) (s : DedupStore)
    → Dict.get String_discrete hash s.seen ≡ some at
    → Dict.get String_discrete hash
        (answer now other s (Dict.get String_discrete other s.seen)).0.seen
      ≡ some at
unfolding answer
answer-keeps now at hash other s e = elim (Option-cases (Dict.get String_discrete other s.seen)) [
  | inl new ↦
      rw (new, answer)
        (Dict.get-put_ne String_discrete other hash now s.seen
            (λ p. cc (ap (λ k. Dict.get String_discrete k s.seen) p))
          ∙ e)
  | inr (t, old) ↦ rw (old, answer) e
]

in_window-keeps : (now window at : ℕ) → now ≤ at + window → in_window now window (some at) ≡ some at
in_window-keeps now window at h = ground arith

check_and_record-keeps :
    (now hours at : ℕ) (hash other : String) (s : DedupStore)
    → IsValid s
    → Dict.get String_discrete hash s.seen ≡ some at
    → now ≤ at + hours * hour
    → Dict.get String_discrete hash (check_and_record now other hours s).0.seen ≡ some at
unfolding check_and_record
check_and_record-keeps now hours at hash other s v e h =
    answer-keeps now at hash other (evict now (hours * hour) s.seen s.order) (
      store-in_window now (hours * hour) hash s v
      ∙ ap (in_window now (hours * hour)) e
      ∙ in_window-keeps now (hours * hour) at h)

answer-records :
    (now : ℕ) (hash : String) (s : DedupStore) (o : Option ℕ)
    → (answer now hash s o).1 ≡ false
    → Dict.get String_discrete hash (answer now hash s o).0.seen ≡ some now
unfolding answer
answer-records now hash s none e = Dict.get-put_self String_discrete hash now s.seen
answer-records now hash s (some at) e = cc

check_and_record-records :
    (now hours : ℕ) (hash : String) (s : DedupStore)
    → (check_and_record now hash hours s).1 ≡ false
    → Dict.get String_discrete hash (check_and_record now hash hours s).0.seen ≡ some now
unfolding check_and_record
check_and_record-records now hours hash s e =
    answer-records now hash (evict now (hours * hour) s.seen s.order) _ e

IsMonotone-le : (now limit : ℕ) (l : List Observation) → IsMonotone now limit l → now ≤ limit
IsMonotone-le now limit [] h = h
IsMonotone-le now limit (o ∷ rest) h = omega (arith, IsMonotone-le o.now limit rest h.1)

All-later :
    {now later : ℕ} (order : List DedupEntry)
    → now ≤ later
    → All (λ e. e.recorded_at ≤ now) order
    → All (λ e. e.recorded_at ≤ later) order
All-later [] le h = tt
All-later (e ∷ order) le h = (omega arith, All-later order le h.1)

observe-keeps :
    (now limit hours at : ℕ) (hash : String) (l : List Observation) (s : DedupStore)
    → IsValid s
    → IsPast now s
    → IsMonotone now limit l
    → limit ≤ at + hours * hour
    → Dict.get String_discrete hash s.seen ≡ some at
    → IsValid (observe hours l s)
      × (Dict.get String_discrete hash (observe hours l s).seen ≡ some at)
observe-keeps now limit hours at hash [] s v past m le e = (v, e)
observe-keeps now limit hours at hash (o ∷ rest) s v past m le e =
    let later = All-later s.order m.0 past in
    let (v', past') = check_and_record-IsValid o.now hours o.hash s v later in
    observe-keeps o.now limit hours at hash rest (check_and_record o.now o.hash hours s).0 v' past'
      m.1 le
      (check_and_record-keeps o.now hours at hash o.hash s v e
        (omega (arith, IsMonotone-le o.now limit rest m.1)))

-- Once a check of a hash has found it new, every later check of it inside the window reports a
-- duplicate, whatever other observations arrive in between, as long as the clock does not go back
-- and the store was in step before.
pub duplicate_within_window :
    (now now' hours : ℕ) (hash : String) (l : List Observation) (s : DedupStore)
    → IsValid s
    → IsPast now s
    → (check_and_record now hash hours s).1 ≡ false
    → IsMonotone now now' l
    → now' ≤ now + hours * hour
    → (check_and_record now' hash hours (observe hours l (check_and_record now hash hours s).0)).1
      ≡ true
duplicate_within_window now now' hours hash l s v past fresh m le =
    let (v', past') = check_and_record-IsValid now hours hash s v past in
    let (v'', kept) =
      observe-keeps now now' hours now hash l (check_and_record now hash hours s).0 v' past' m le
        (check_and_record-records now hours hash s fresh) in
    (check_and_record-duplicate now' hours hash _ v'').0.1 (now, kept, le)
