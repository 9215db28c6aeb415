-- ===== src/Tests/Caches.antt =====
-- The LRU cache at concrete states; keys and values are numbers.
use data_service.Common.{
  ℕ, ◌≤◌, ◌<◌, ◌≡◌, refl, none, List, [], ◌∷◌, ◌++◌, length, All, err, arith, ℕ_discrete as dec,
}
use data_service.Common.Dict
use data_service.L1Cache
use data_service.L1Cache.{Cache, no_stats}
use data_service.L1Cache.Requests.{Request, get, set, perform, run}
use data_service.L1Cache.Validity.{IsValid, perform-IsValid}
use data_service.L1Cache.Recency.{last_use, record_all}
use data_service.L1Cache.Eviction.{set-least_recent}

abbrev empty : Cache ℕ ℕ
empty = record { max_capacity = 2; store = []; stats = no_stats }

abbrev full : Cache ℕ ℕ
full = record empty { store = (1, 10) ∷ (2, 20) ∷ [] }

empty-IsValid : IsValid dec empty
empty-IsValid = record { positive = omega arith; distinct = tt; bounded = omega arith }

full-IsValid : IsValid dec full
unfolding Dict.get dec
full-IsValid = record {
  positive = omega arith;
  distinct = (refl, (refl, tt));
  bounded = omega arith;
}

perform-IsValid_example : IsValid dec (perform dec (set 3 30) full)
perform-IsValid_example = perform-IsValid dec (set 3 30) full full-IsValid

-- Key 1 is used again before key 3 comes, so key 2 goes.
abbrev requests : List (Request ℕ ℕ)
requests = set 1 10 ∷ set 2 20 ∷ get 1 ∷ []

requests-store : (run dec requests empty).store ≡ (2, 20) ∷ (1, 10) ∷ []
unfolding run perform Dict.get Dict.remove dec
requests-store = refl

requests-new : Dict.get dec 3 (run dec requests empty).store ≡ none
unfolding run perform Dict.get Dict.remove dec
requests-new = refl

requests-full : (run dec requests empty).max_capacity ≤ length (run dec requests empty).store
unfolding run perform Dict.get Dict.remove dec
requests-full = omega arith

set-least_recent_example :
    (q : ℕ) × (w : ℕ) × (rest : List (ℕ × ℕ)) × ((run dec requests empty).store ≡ (q, w) ∷ rest)
    × ((perform dec (set 3 30) (run dec requests empty)).store ≡ rest ++ (3, 30) ∷ [])
    × All
        (λ e. last_use dec (record_all requests []) q < last_use dec (record_all requests []) e.0)
        rest
set-least_recent_example =
    set-least_recent dec requests empty 3 30 empty-IsValid refl requests-new requests-full

capacity_checked : L1Cache.init {K = ℕ} {V = ℕ} 0 ≡ err L1Cache.value_error
unfolding L1Cache.init
capacity_checked = refl
