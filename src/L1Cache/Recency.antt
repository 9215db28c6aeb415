-- ===== src/L1Cache/Recency.antt =====
-- The order of the LRU cache: the entries stand in the order of their last use, so the entry that a
-- full cache evicts is the one whose last use is longest ago.
use data_service.Common.{
  ℕ, suc, ◌≤◌, ◌<◌, ◌≡◌, refl, Option, none, some, List, [], ◌∷◌, ◌++◌, leb, arith, length,
  Bool-cases, Option-cases, inl, inr, ite, if_pos, if_neg, All, All-append,
}
use data_service.Common.Dict
use data_service.L1Cache.{Cache, promote, pop_first, insert}
use data_service.L1Cache.Requests.{Request, get, set, delete, clear, reset_stats, perform}
use data_service.L1Cache.Validity.{IsValid, pop_first-absent}
use data_service.L1Cache.Reads.{set_absent, set_present}

-- The run so far, its last request first.
abbrev pub record_all {ℓ} : {A : Type ℓ} → List A → List A → List A
record_all [] older = older
record_all (r ∷ rest) older = record_all rest (r ∷ older)

-- The key that a request uses.
abbrev pub touched {ℓ} : {K V : Type ℓ} → Request K V → Option K
touched (get k) = some k
touched (set k v) = some k
touched _ = none

module _ {ℓ} {K : Type ℓ} (dec : Discrete K) where
  abbrev pub stamp : Option K → ℕ → (K → ℕ) → K → ℕ
  stamp none now use_of q = use_of q
  stamp (some k) now use_of q = ite (dec k q) now (use_of q)

module _ {ℓ} {K V : Type ℓ} (dec : Discrete K) where
  -- The number of the last request that used a key; 0 if none did.
  pub last_use : List (Request K V) → K → ℕ
  last_use [] q = 0
  last_use (r ∷ older) q = stamp dec (touched r) (suc (length older)) (last_use older) q

  -- Oldest first: each entry was last used before all that follow it.
  abbrev pub IsOrdered : (K → ℕ) → List (K × V) → Type ℓ
  IsOrdered use_of [] = Unit
  IsOrdered use_of ((k, v) ∷ d) = All (λ e. use_of k < use_of e.0) d × IsOrdered use_of d

  All-remove :
      (P : ℕ → Type 0) (use_of : K → ℕ) (k : K) (d : List (K × V))
      → All (λ e. P (use_of e.0)) d
      → All (λ e. P (use_of e.0)) (Dict.remove dec k d)
  unfolding Dict.remove
  All-remove P use_of k [] h = tt
  All-remove P use_of k ((j, w) ∷ d) h =
      elim (dec j k) as (λ b. All (λ e. P (use_of e.0)) (ite b d ((j, w) ∷ Dict.remove dec k d))) [
        | yes e ↦ h.1
        | no e ↦ (h.0, All-remove P use_of k d h.1)
      ]

  remove-IsOrdered :
      (use_of : K → ℕ) (k : K) (d : List (K × V))
      → IsOrdered use_of d
      → IsOrdered use_of (Dict.remove dec k d)
  unfolding Dict.remove
  remove-IsOrdered use_of k [] h = tt
  remove-IsOrdered use_of k ((j, w) ∷ d) h =
      elim (dec j k) as (λ b. IsOrdered use_of (ite b d ((j, w) ∷ Dict.remove dec k d))) [
        | yes e ↦ h.1
        | no e ↦ (All-remove (λ n. use_of j < n) use_of k d h.0, remove-IsOrdered use_of k d h.1)
      ]

  -- A key that is not there can be stamped with no effect.
  All-stamp :
      (P : ℕ → Type 0) (use_of : K → ℕ) (k : K) (now : ℕ) (d : List (K × V))
      → Dict.get dec k d ≡ none
      → All (λ e. P (use_of e.0)) d
      → All (λ e. P (stamp dec (some k) now use_of e.0)) d
  unfolding Dict.get
  All-stamp P use_of k now [] miss h = tt
  All-stamp P use_of k now ((j, w) ∷ d) miss h =
      let (other, absent) = Dict.get-cons_absent dec k j w d miss in
      (rw (if_neg _ other) h.0, All-stamp P use_of k now d absent h.1)

  stamp-IsOrdered :
      (use_of : K → ℕ) (k : K) (now : ℕ) (d : List (K × V))
      → Dict.get dec k d ≡ none
      → IsOrdered use_of d
      → IsOrdered (stamp dec (some k) now use_of) d
  stamp-IsOrdered use_of k now [] miss h = tt
  stamp-IsOrdered use_of k now ((j, w) ∷ d) miss h =
      let (other, absent) = Dict.get-cons_absent dec k j w d miss in
      (
        rw (if_neg _ other) (All-stamp (λ n. use_of j < n) use_of k now d absent h.0),
        stamp-IsOrdered use_of k now d absent h.1,
      )

  snoc-IsOrdered :
      (use_of : K → ℕ) (k : K) (v : V) (n : ℕ) (d : List (K × V))
      → All (λ e. use_of e.0 ≤ n) d
      → use_of k ≡ suc n
      → IsOrdered use_of d
      → IsOrdered use_of (d ++ (k, v) ∷ [])
  snoc-IsOrdered use_of k v n [] b e h = (tt, tt)
  snoc-IsOrdered use_of k v n ((j, w) ∷ d) b e h =
      (All-append _ d ((k, v) ∷ []) h.0 (omega arith, tt), snoc-IsOrdered use_of k v n d b.1 e h.1)

  All-le_suc :
      (use_of : K → ℕ) (n : ℕ) (d : List (K × V))
      → All (λ e. use_of e.0 ≤ n) d
      → All (λ e. use_of e.0 ≤ suc n) d
  All-le_suc use_of n [] h = tt
  All-le_suc use_of n (e ∷ d) h = (omega arith, All-le_suc use_of n d h.1)

  -- The entries are in order, and none was used after request number `n`.
  pub record Tracks (use_of : K → ℕ) (n : ℕ) (d : List (K × V)) : Type ℓ where
    pub ordered : IsOrdered use_of d
    pub past : All (λ e. use_of e.0 ≤ n) d

  Tracks-later :
      (use_of : K → ℕ) (n : ℕ) (d : List (K × V)) → Tracks use_of n d → Tracks use_of (suc n) d
  Tracks-later use_of n d t = record { ordered = t.ordered; past = All-le_suc use_of n d t.past }

  Tracks-remove :
      (use_of : K → ℕ) (n : ℕ) (k : K) (d : List (K × V))
      → Tracks use_of n d
      → Tracks use_of n (Dict.remove dec k d)
  Tracks-remove use_of n k d t = record {
    ordered = remove-IsOrdered use_of k d t.ordered;
    past = All-remove (λ m. m ≤ n) use_of k d t.past;
  }

  Tracks-pop_first :
      (use_of : K → ℕ) (n : ℕ) (d : List (K × V))
      → Tracks use_of n d
      → Tracks use_of n (pop_first d)
  unfolding pop_first
  Tracks-pop_first use_of n [] t = t
  Tracks-pop_first use_of n (e ∷ d) t = record { ordered = t.ordered.1; past = t.past.1 }

  module _ (use_of : K → ℕ) (n : ℕ) (k : K) (d : List (K × V)) (miss : Dict.get dec k d ≡ none)
      (t : Tracks use_of n d) where
    -- A use of a key that is not there.
    Tracks-miss : Tracks (stamp dec (some k) (suc n) use_of) (suc n) d
    Tracks-miss = record {
      ordered = stamp-IsOrdered use_of k (suc n) d miss t.ordered;
      past = All-stamp (λ m. m ≤ suc n) use_of k (suc n) d miss (All-le_suc use_of n d t.past);
    }

    -- A key that is put behind the others.
    Tracks-snoc : (v : V) → Tracks (stamp dec (some k) (suc n) use_of) (suc n) (d ++ (k, v) ∷ [])
    Tracks-snoc v =
        let now = if_pos (dec k k) refl (suc n) (use_of k) in
        record {
          ordered =
              snoc-IsOrdered (stamp dec (some k) (suc n) use_of) k v n d
                (All-stamp (λ m. m ≤ n) use_of k (suc n) d miss t.past) now Tracks-miss.ordered;
          past = All-append _ d ((k, v) ∷ []) Tracks-miss.past (omega (arith, now), tt);
        }

  module _ (older : List (Request K V)) (c : Cache K V) (h : IsValid dec c)
      (t : Tracks (last_use older) (length older) c.store) where
    -- A present key that is moved to the end.
    Tracks-promote :
        (k : K) (v : V)
        → Tracks
            (stamp dec (some k) (suc (length older)) (last_use older))
            (suc (length older))
            (promote dec k v c.store)
    unfolding promote
    Tracks-promote k v =
        Tracks-snoc (last_use older) (length older) k (Dict.remove dec k c.store)
          (Dict.get-remove_self dec k c.store h.distinct)
          (Tracks-remove (last_use older) (length older) k c.store t) v

    Tracks-insert :
        (k : K) (v : V)
        → Dict.get dec k c.store ≡ none
        → Tracks
            (stamp dec (some k) (suc (length older)) (last_use older))
            (suc (length older))
            (insert dec c k v).store
    unfolding insert
    Tracks-insert k v miss = elim (Bool-cases (leb c.max_capacity (length c.store))) [
      | inl full ↦ rw full (
          Tracks-snoc (last_use older) (length older) k (pop_first c.store)
            (pop_first-absent dec k c.store miss)
            (Tracks-pop_first (last_use older) (length older) c.store t) v)
      | inr free ↦ rw free (Tracks-snoc (last_use older) (length older) k c.store miss t v)
    ]

    pub perform-Tracks :
        (r : Request K V)
        → Tracks (last_use (r ∷ older)) (suc (length older)) (perform dec r c).store
    unfolding last_use perform
    perform-Tracks (get k) = elim (Option-cases (Dict.get dec k c.store)) [
      | inl miss ↦ rw (miss, perform) (Tracks-miss (last_use older) (length older) k c.store miss t)
      | inr (w, hit) ↦ rw (hit, perform) (Tracks-promote k w)
    ]
    perform-Tracks (set k v) = elim (Option-cases (Dict.get dec k c.store)) [
      | inl miss ↦ rw (set_absent dec k v c miss) (Tracks-insert k v miss)
      | inr (w, hit) ↦ rw (set_present dec k v w c hit) (Tracks-promote k v)
    ]
    perform-Tracks (delete k) = elim (Option-cases (Dict.get dec k c.store)) [
      | inl miss ↦ rw (miss, perform) (Tracks-later (last_use older) (length older) c.store t)
      | inr (w, hit) ↦
          rw (hit, perform)
            (Tracks-later (last_use older) (length older) (Dict.remove dec k c.store)
              (Tracks-remove (last_use older) (length older) k c.store t))
    ]
    perform-Tracks clear = record { ordered = tt; past = tt }
    perform-Tracks reset_stats = Tracks-later (last_use older) (length older) c.store t
