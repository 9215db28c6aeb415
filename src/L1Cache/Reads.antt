-- ===== src/L1Cache/Reads.antt =====
-- What `set` does to a key that is missing and to one that is there.
use data_service.Common.{◌≡◌, none, some}
use data_service.Common.Dict
use data_service.Common.Dict.{IsDistinct}
use data_service.L1Cache
use data_service.L1Cache.{Cache, promote, pop_first, insert}

module _ {ℓ} {K V : Type ℓ} (dec : Discrete K) where
  pub set_absent :
      (k : K) (v : V) (c : Cache K V)
      → Dict.get dec k c.store ≡ none
      → L1Cache.set dec c k v ≡ insert dec c k v
  unfolding L1Cache.set
  set_absent k v c miss = rw (miss, L1Cache.on_set)

  pub set_present :
      (k : K) (v w : V) (c : Cache K V)
      → Dict.get dec k c.store ≡ some w
      → L1Cache.set dec c k v ≡ record c { store = promote dec k v c.store }
  unfolding L1Cache.set
  set_present k v w c hit = rw (hit, L1Cache.on_set)
