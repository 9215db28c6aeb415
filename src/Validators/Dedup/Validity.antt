-- ===== src/Validators/Dedup/Validity.antt =====
-- The dictionary and the queue of the store hold the same hashes, and the queue is sorted by time.
use data_service.Common.{
  ℕ, ◌+◌, ◌*◌, ◌≤◌, ◌≡◌, refl, sym, ◌∙◌, ap, subst, String, List, [], ◌∷◌, ◌++◌, map, ltb, arith,
  All, All-append, Bool-cases, Option-cases, inl, inr, String_discrete, if_pos,
}
use data_service.Common.Dict
use data_service.Common.Dict.{IsDistinct}
use data_service.Validators.Dedup.{DedupEntry, DedupStore, evict, check_and_record, hour, answer}

abbrev pub pair : DedupEntry → String × ℕ
pair e = (e.dedup_hash, e.recorded_at)

abbrev pub IsSorted : List DedupEntry → Type 0
IsSorted [] = Unit
IsSorted (e ∷ order) = All (λ x. e.recorded_at ≤ x.recorded_at) order × IsSorted order

pub record IsValid (s : DedupStore) : Type 0 where
  pub same : s.seen ≡ map pair s.order
  pub distinct : IsDistinct String_discrete s.seen
  pub sorted : IsSorted s.order

-- No entry is later than `now`.
abbrev pub IsPast : ℕ → DedupStore → Type 0
IsPast now s = All (λ e. e.recorded_at ≤ now) s.order

pub remove-first :
    (e : DedupEntry) (order : List DedupEntry)
    → Dict.remove String_discrete e.dedup_hash (map pair (e ∷ order)) ≡ map pair order
unfolding Dict.remove
remove-first e order = if_pos (String_discrete e.dedup_hash e.dedup_hash) refl _ _

pub evict-IsValid :
    (now window : ℕ) (order : List DedupEntry)
    → IsDistinct String_discrete (map pair order)
    → IsSorted order
    → IsValid (evict now window (map pair order) order)
unfolding evict
evict-IsValid now window [] d h = record { same = refl; distinct = tt; sorted = tt }
evict-IsValid now window (e ∷ order) d h = elim (Bool-cases (ltb (e.recorded_at + window) now)) [
  | inl old ↦ rw (old, remove-first) (evict-IsValid now window order d.1 h.1)
  | inr young ↦ rw young (record { same = refl; distinct = d; sorted = h })
]

All-evict :
    (P : DedupEntry → Type 0) (now window : ℕ) (seen : List (String × ℕ)) (order : List DedupEntry)
    → All P order
    → All P (evict now window seen order).order
unfolding evict
All-evict P now window seen [] h = tt
All-evict P now window seen (e ∷ order) h = elim (Bool-cases (ltb (e.recorded_at + window) now)) [
  | inl old ↦
      rw old (All-evict P now window (Dict.remove String_discrete e.dedup_hash seen) order h.1)
  | inr young ↦ rw young h
]

snoc-IsSorted :
    (now : ℕ) (hash : String) (order : List DedupEntry)
    → All (λ e. e.recorded_at ≤ now) order
    → IsSorted order
    → IsSorted (order ++ record { dedup_hash = hash; recorded_at = now } ∷ [])
snoc-IsSorted now hash [] h s = (tt, tt)
snoc-IsSorted now hash (e ∷ order) h s =
    (All-append _ order _ s.0 (h.0, tt), snoc-IsSorted now hash order h.1 s.1)

map-pair_snoc :
    (e : DedupEntry) (order : List DedupEntry)
    → map pair (order ++ e ∷ []) ≡ map pair order ++ pair e ∷ []
map-pair_snoc e [] = refl
map-pair_snoc e (x ∷ order) = ap (◌∷◌ (pair x)) (map-pair_snoc e order)

answer-IsValid :
    (now : ℕ) (hash : String) (s : DedupStore)
    → IsValid s
    → IsPast now s
    → IsValid (answer now hash s (Dict.get String_discrete hash s.seen)).0
      × IsPast now (answer now hash s (Dict.get String_discrete hash s.seen)).0
unfolding answer
answer-IsValid now hash s v past = elim (Option-cases (Dict.get String_discrete hash s.seen)) [
  | inl new ↦
      rw (new, answer, Dict.put_absent String_discrete hash now s.seen new)
        (
          record {
            same =
                ap (λ d. d ++ (hash, now) ∷ []) v.same
                ∙ sym (map-pair_snoc (record { dedup_hash = hash; recorded_at = now }) s.order);
            distinct = Dict.snoc-IsDistinct String_discrete hash now s.seen new v.distinct;
            sorted = snoc-IsSorted now hash s.order past v.sorted;
          },
          All-append _ s.order _ past (omega arith, tt),
        )
  | inr (at, old) ↦ rw (old, answer) (v, past)
]

-- Eviction on a store whose dictionary and queue agree.
pub evict_store :
    (P : DedupStore → Type 0) (now window : ℕ) (s : DedupStore)
    → IsValid s
    → P (evict now window (map pair s.order) s.order)
    → P (evict now window s.seen s.order)
evict_store P now window s v h = subst (λ d. P (evict now window d s.order)) (sym v.same) h

pub evict_store-IsValid :
    (now window : ℕ) (s : DedupStore) → IsValid s → IsValid (evict now window s.seen s.order)
evict_store-IsValid now window s v = evict_store IsValid now window s v (
    evict-IsValid now window s.order (subst (IsDistinct String_discrete) v.same v.distinct)
      v.sorted)

-- If the clock has not gone back since the records of a store, a check keeps its dictionary and its
-- queue in step, the queue sorted, and no record later than the clock.
pub check_and_record-IsValid :
    (now hours : ℕ) (hash : String) (s : DedupStore)
    → IsValid s
    → IsPast now s
    → IsValid (check_and_record now hash hours s).0
      × IsPast now (check_and_record now hash hours s).0
unfolding check_and_record
check_and_record-IsValid now hours hash s v past =
    answer-IsValid now hash (evict now (hours * hour) s.seen s.order)
      (evict_store-IsValid now (hours * hour) s v)
      (All-evict (λ e. e.recorded_at ≤ now) now (hours * hour) s.seen s.order past)
