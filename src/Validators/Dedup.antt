-- ===== src/Validators/Dedup.antt =====
-- src/core/validators/dedup.py: the rolling-window store of deduplication hashes. Times are readings
-- of the monotonic clock in nanoseconds; the hash itself (SHA-256) is an argument.
pub mod Validity
pub mod Eviction
pub mod Window
use data_service.Common.{
  ℕ, ◌+◌, ◌*◌, String, Bool, true, false, Option, none, some, List, [], ◌∷◌, ◌++◌, ltb, length,
  if◌then◌else◌, String_discrete,
}
use data_service.Common.Dict

pub record DedupEntry : Type 0 where
  pub dedup_hash : String
  pub recorded_at : ℕ

pub record DedupStore : Type 0 where
  pub seen : List (String × ℕ)
  pub order : List DedupEntry

unfoldable pub init : DedupStore
init = record { seen = []; order = [] }

unfoldable pub clear : DedupStore → DedupStore
clear s = record { seen = []; order = [] }

unfoldable pub size : DedupStore → ℕ
size s = length s.seen

-- The loop of `_evict_expired`. `recorded_at < now - window` is written without the subtraction.
unfoldable pub evict : ℕ → ℕ → List (String × ℕ) → List DedupEntry → DedupStore
evict now window seen [] = record { seen = seen; order = [] }
evict now window seen (e ∷ order) =
    let rest = evict now window (Dict.remove String_discrete e.dedup_hash seen) order in
    if ltb (e.recorded_at + window) now then rest else record { seen = seen; order = e ∷ order }

-- An hour in nanoseconds.
abbrev pub hour : ℕ
hour = 3600000000000

-- The new store, `is_duplicate` and `recorded`.
answer : ℕ → String → DedupStore → Option ℕ → DedupStore × Bool × Bool
answer now hash s (some at) = (s, true, false)
answer now hash s none = (
  record {
    seen = Dict.put String_discrete hash now s.seen;
    order = s.order ++ record { dedup_hash = hash; recorded_at = now } ∷ [];
  },
  false,
  true,
)

unfoldable pub check_and_record : ℕ → String → ℕ → DedupStore → DedupStore × Bool × Bool
unfolding evict answer
check_and_record now hash window_hours s =
    let s' = evict now (window_hours * hour) s.seen s.order in
    answer now hash s' (Dict.get String_discrete hash s'.seen)
