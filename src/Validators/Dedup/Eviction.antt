-- ===== src/Validators/Dedup/Eviction.antt =====
-- What eviction leaves: the records that are in the window.
use data_service.Common.{
  ℕ, ◌+◌, ◌≤◌, ◌≡◌, refl, sym, ◌∙◌, ap, subst, String, true, false, Option, none, some, List, [],
  ◌∷◌, map, ltb, if◌then◌else◌, arith, All, Bool-cases, inl, inr, String_discrete,
}
use data_service.Common.Dict
use data_service.Common.Dict.{IsDistinct}
use data_service.Validators.Dedup.{DedupEntry, DedupStore, evict}
use data_service.Validators.Dedup.Validity.{pair, IsSorted, IsValid, remove-first, evict_store}

-- What a reading of the store is worth at `now`.
abbrev pub in_window : ℕ → ℕ → Option ℕ → Option ℕ
in_window now window none = none
in_window now window (some at) = if ltb (at + window) now then none else some at

in_window-young :
    (now window t : ℕ) (hash : String) (order : List DedupEntry)
    → ltb (t + window) now ≡ false
    → All (λ e. t ≤ e.recorded_at) order
    → in_window now window (Dict.get String_discrete hash (map pair order))
      ≡ Dict.get String_discrete hash (map pair order)
unfolding Dict.get
in_window-young now window t hash [] young h = refl
in_window-young now window t hash (e ∷ order) young h =
    ground (arith, in_window-young now window t hash order)

in_window-old :
    (now window at : ℕ) (k hash : String) (rest : List (String × ℕ))
    → Dict.get String_discrete k rest ≡ none
    → ltb (at + window) now ≡ true
    → in_window now window (Dict.get String_discrete hash rest)
      ≡ in_window now window (Dict.get String_discrete hash ((k, at) ∷ rest))
unfolding Dict.get
in_window-old now window at k hash rest absent old = ground arith

evict_old :
    (now window : ℕ) (e : DedupEntry) (order : List DedupEntry)
    → ltb (e.recorded_at + window) now ≡ true
    → evict now window (map pair (e ∷ order)) (e ∷ order) ≡ evict now window (map pair order) order
unfolding evict
evict_old now window e order old = rw (old, remove-first)

evict_young :
    (now window : ℕ) (e : DedupEntry) (order : List DedupEntry)
    → ltb (e.recorded_at + window) now ≡ false
    → evict now window (map pair (e ∷ order)) (e ∷ order)
      ≡ record { seen = map pair (e ∷ order); order = e ∷ order }
unfolding evict
evict_young now window e order young = rw young

evict-in_window :
    (now window : ℕ) (hash : String) (order : List DedupEntry)
    → IsDistinct String_discrete (map pair order)
    → IsSorted order
    → Dict.get String_discrete hash (evict now window (map pair order) order).seen
      ≡ in_window now window (Dict.get String_discrete hash (map pair order))
evict-in_window now window hash [] d h = unfold evict Dict.get in refl
evict-in_window now window hash (e ∷ order) d h =
    elim (Bool-cases (ltb (e.recorded_at + window) now)) [
      | inl old ↦
          ap (λ s. Dict.get String_discrete hash s.seen) (evict_old now window e order old)
          ∙ evict-in_window now window hash order d.1 h.1
          ∙ in_window-old now window e.recorded_at e.dedup_hash hash (map pair order) d.0 old
      | inr young ↦
          ap (λ s. Dict.get String_discrete hash s.seen) (evict_young now window e order young)
          ∙ sym (in_window-young now window e.recorded_at hash (e ∷ order) young (omega arith, h.0))
    ]

pub store-in_window :
    (now window : ℕ) (hash : String) (s : DedupStore)
    → IsValid s
    → Dict.get String_discrete hash (evict now window s.seen s.order).seen
      ≡ in_window now window (Dict.get String_discrete hash s.seen)
store-in_window now window hash s v =
    evict_store
      (λ r.
        Dict.get String_discrete hash r.seen
        ≡ in_window now window (Dict.get String_discrete hash s.seen))
      now window s v
      (evict-in_window now window hash s.order
          (subst (IsDistinct String_discrete) v.same v.distinct) v.sorted
        ∙ ap (λ d. in_window now window (Dict.get String_discrete hash d)) (sym v.same))
