-- ===== src/L1Cache/Validity.antt =====
-- The invariant of the LRU cache: no key twice, never more entries than the capacity.
use data_service.Common.{
  suc, ◌≤◌, ◌≡◌, refl, none, some, List, [], ◌∷◌, leb, arith, length, Bool-cases, Option-cases, inl,
  inr, tests,
}
use data_service.Common.Dict
use data_service.Common.Dict.{IsDistinct}
use data_service.L1Cache
use data_service.L1Cache.{Cache, CacheStats, promote, pop_first, insert, init}
use data_service.L1Cache.Requests.{Request, get, delete, set, clear, reset_stats, perform, run}

module _ {ℓ} {K V : Type ℓ} (dec : Discrete K) where
  pub record IsValid (c : Cache K V) : Type ℓ where
    pub positive : 1 ≤ c.max_capacity
    pub distinct : IsDistinct dec c.store
    pub bounded : length c.store ≤ c.max_capacity

  pub promote-IsDistinct :
      (k : K) (v : V) (d : List (K × V)) → IsDistinct dec d → IsDistinct dec (promote dec k v d)
  unfolding promote
  promote-IsDistinct k v d u =
      Dict.snoc-IsDistinct dec k v (Dict.remove dec k d) (Dict.get-remove_self dec k d u)
        (Dict.remove-IsDistinct dec k d u)

  length-promote :
      (k : K) (v w : V) (d : List (K × V))
      → Dict.get dec k d ≡ some w
      → length (promote dec k v d) ≡ length d
  unfolding promote
  length-promote k v w d h =
      omega
        (arith, Dict.length-snoc dec (k, v) (Dict.remove dec k d), Dict.length-remove dec k d w h)

  pop_first-IsDistinct : (d : List (K × V)) → IsDistinct dec d → IsDistinct dec (pop_first d)
  unfolding pop_first
  pop_first-IsDistinct [] u = tt
  pop_first-IsDistinct (e ∷ d) u = u.1

  pub pop_first-absent :
      (k : K) (d : List (K × V)) → Dict.get dec k d ≡ none → Dict.get dec k (pop_first d) ≡ none
  unfolding pop_first Dict.get
  pop_first-absent k [] h = refl
  pop_first-absent k (e ∷ d) h = ground arith

  length-pop_first : (d : List (K × V)) → 1 ≤ length d → suc (length (pop_first d)) ≡ length d
  unfolding pop_first
  length-pop_first [] h = omega arith
  length-pop_first (e ∷ d) h = refl

  promote-IsValid :
      (k : K) (v w : V) (c : Cache K V) (stats : CacheStats)
      → IsValid c
      → Dict.get dec k c.store ≡ some w
      → IsValid (record c { store = promote dec k v c.store; stats = stats })
  promote-IsValid k v w c stats h hit = record {
    positive = h.positive;
    distinct = promote-IsDistinct k v c.store h.distinct;
    bounded = omega (arith, length-promote k v w c.store hit, h.bounded);
  }

  insert-IsValid :
      (k : K) (v : V) (c : Cache K V)
      → IsValid c
      → Dict.get dec k c.store ≡ none
      → IsValid (insert dec c k v)
  unfolding insert
  insert-IsValid k v c h miss = elim (Bool-cases (leb c.max_capacity (length c.store))) [
    | inl full ↦ rw full (record {
      positive = h.positive;
      distinct =
          Dict.snoc-IsDistinct dec k v (pop_first c.store) (pop_first-absent k c.store miss)
            (pop_first-IsDistinct c.store h.distinct);
      bounded =
          omega (
            tests,
            full,
            Dict.length-snoc dec (k, v) (pop_first c.store),
            length-pop_first c.store,
          );
    })
    | inr free ↦ rw free (record {
      positive = h.positive;
      distinct = Dict.snoc-IsDistinct dec k v c.store miss h.distinct;
      bounded = omega (tests, free, Dict.length-snoc dec (k, v) c.store);
    })
  ]

  -- Each request to a valid cache leaves it valid: its capacity is positive, no key stands twice,
  -- and it holds no more entries than its capacity.
  pub perform-IsValid : (r : Request K V) (c : Cache K V) → IsValid c → IsValid (perform dec r c)
  unfolding perform
  perform-IsValid (get k) c h = elim (Option-cases (Dict.get dec k c.store)) [
    | inl miss ↦ rw (miss, perform) assumption
    | inr (w, hit) ↦ rw (hit, perform) (promote-IsValid k w w c _ h hit)
  ]
  perform-IsValid (set k v) c h = elim (Option-cases (Dict.get dec k c.store)) [
    | inl miss ↦ rw (miss, L1Cache.set, perform) (insert-IsValid k v c h miss)
    | inr (w, hit) ↦ rw (hit, L1Cache.set, perform) (promote-IsValid k v w c c.stats h hit)
  ]
  perform-IsValid (delete k) c h = elim (Option-cases (Dict.get dec k c.store)) [
    | inl miss ↦ rw (miss, perform) assumption
    | inr (w, hit) ↦
        rw (hit, perform)
          (record {
            positive = h.positive;
            distinct = Dict.remove-IsDistinct dec k c.store h.distinct;
            bounded = omega (arith, Dict.length-remove dec k c.store w hit);
          })
  ]
  perform-IsValid clear c v = record { positive = v.positive; distinct = tt; bounded = omega arith }
  perform-IsValid reset_stats c v = record {
    positive = v.positive;
    distinct = v.distinct;
    bounded = v.bounded;
  }

  -- So does any run of requests.
  pub run-IsValid : (l : List (Request K V)) (c : Cache K V) → IsValid c → IsValid (run dec l c)
  unfolding run
  run-IsValid [] c h = h
  run-IsValid (r ∷ rest) c h = run-IsValid rest (perform dec r c) (perform-IsValid r c h)
