-- ===== src/L1Cache/Requests.antt =====
-- The methods that change a cache, as one type of requests, and runs of a cache.
use data_service.Common.{List, [], ◌∷◌}
use data_service.L1Cache
use data_service.L1Cache.{Cache}

pub data Request {ℓ} (K V : Type ℓ) : Type ℓ where
  get delete : K → Request K V
  set : K → V → Request K V
  clear reset_stats : Request K V

module _ {ℓ} {K V : Type ℓ} (dec : Discrete K) where
  unfoldable pub perform : Request K V → Cache K V → Cache K V
  unfolding L1Cache.get L1Cache.set L1Cache.delete L1Cache.clear L1Cache.reset_stats
  perform (get key) c = (L1Cache.get dec c key).0
  perform (delete key) c = (L1Cache.delete dec c key).0
  perform (set key value) c = L1Cache.set dec c key value
  perform clear c = L1Cache.clear c
  perform reset_stats c = L1Cache.reset_stats c

  unfoldable pub run : List (Request K V) → Cache K V → Cache K V
  run [] c = c
  run (r ∷ rest) c = run rest (perform r c)
