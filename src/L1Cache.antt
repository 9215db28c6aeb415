-- ===== src/L1Cache.antt =====
-- src/cache/l1_cache.py: the in-process LRU cache. The `OrderedDict` is a list of entries, the least
-- recently used first. Keys are any type with a decidable equality, values any type.
pub mod Requests
pub mod Validity
pub mod Reads
pub mod Recency
pub mod Eviction
use data_service.Common.{
  ℕ, suc, ◌+◌, Bool, true, false, Option, none, some, List, [], ◌∷◌, ◌++◌, leb, if◌then◌else◌,
  length, Result, ok, err,
}
use data_service.Common.Dict

pub record CacheStats : Type 0 where
  pub hits : ℕ
  pub misses : ℕ
  pub evictions : ℕ

pub data CacheError : Type 0 where
  value_error : CacheError

pub record Cache {ℓ} (K V : Type ℓ) : Type ℓ where
  pub max_capacity : ℕ
  pub store : List (K × V)
  pub stats : CacheStats

unfoldable pub total_requests : CacheStats → ℕ
total_requests s = s.hits + s.misses

abbrev pub no_stats : CacheStats
no_stats = record { hits = 0; misses = 0; evictions = 0 }

-- `__init__`, and `create_l1_cache`
unfoldable pub init {ℓ} : {K V : Type ℓ} → ℕ → Result CacheError (Cache K V)
init max_capacity =
    if leb 1 max_capacity
    then ok (record { max_capacity = max_capacity; store = []; stats = no_stats })
    else err value_error

-- `popitem(last=False)`; it is called on a store that is not empty.
unfoldable pub pop_first {ℓ} : {A : Type ℓ} → List A → List A
pop_first [] = []
pop_first (x ∷ xs) = xs

module _ {ℓ} {K V : Type ℓ} (dec : Discrete K) where
  -- `move_to_end(key)` followed by `store[key] = value`
  unfoldable pub promote : K → V → List (K × V) → List (K × V)
  promote key value store = Dict.remove dec key store ++ (key, value) ∷ []

  on_get : Cache K V → K → Option V → Cache K V × Option V
  unfolding promote
  on_get c key none = (record c { stats = record c.stats { misses = c.stats.misses + 1 } }, none)
  on_get c key (some v) = (
    record c { store = promote key v c.store; stats = record c.stats { hits = c.stats.hits + 1 } },
    some v,
  )

  unfoldable pub get : Cache K V → K → Cache K V × Option V
  unfolding on_get
  get c key = on_get c key (Dict.get dec key c.store)

  -- The insertion of a new key, which evicts the oldest entry of a full cache first.
  pub insert : Cache K V → K → V → Cache K V
  unfolding pop_first
  insert c key value =
      if leb c.max_capacity (length c.store)
      then record c {
        store = pop_first c.store ++ (key, value) ∷ [];
        stats = record c.stats { evictions = c.stats.evictions + 1 };
      }
      else record c { store = c.store ++ (key, value) ∷ [] }

  on_set : Cache K V → K → V → Option V → Cache K V
  unfolding insert promote
  on_set c key value (some old) = record c { store = promote key value c.store }
  on_set c key value none = insert c key value

  unfoldable pub set : Cache K V → K → V → Cache K V
  unfolding on_set
  set c key value = on_set c key value (Dict.get dec key c.store)

  on_delete : Cache K V → K → Option V → Cache K V × Bool
  on_delete c key none = (c, false)
  on_delete c key (some v) = (record c { store = Dict.remove dec key c.store }, true)

  unfoldable pub delete : Cache K V → K → Cache K V × Bool
  unfolding on_delete
  delete c key = on_delete c key (Dict.get dec key c.store)

  present : Option V → Bool
  present none = false
  present (some v) = true

  unfoldable pub contains : Cache K V → K → Bool
  unfolding present
  contains c key = present (Dict.get dec key c.store)

module _ {ℓ} {K V : Type ℓ} where
  unfoldable pub clear : Cache K V → Cache K V
  clear c = record c { store = [] }

  unfoldable pub size : Cache K V → ℕ
  size c = length c.store

  unfoldable pub get_stats : Cache K V → CacheStats
  get_stats c = c.stats

  unfoldable pub reset_stats : Cache K V → Cache K V
  reset_stats c = record c { stats = no_stats }
