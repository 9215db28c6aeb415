-- ===== src/L1Cache/Eviction.antt =====
-- Which entry the LRU cache evicts.
use data_service.Common.{
  ℕ, ◌≤◌, ◌<◌, ◌≡◌, refl, ap, ◌∙◌, none, List, [], ◌∷◌, ◌++◌, arith, length, All,
}
use data_service.Common.Dict
use data_service.L1Cache.{Cache, pop_first, insert}
use data_service.L1Cache.Requests.{Request, set, perform, run}
use data_service.L1Cache.Validity.{IsValid, perform-IsValid, run-IsValid}
use data_service.L1Cache.Reads.{set_absent}
use data_service.L1Cache.Recency.{last_use, record_all, Tracks, IsOrdered, perform-Tracks}

module _ {ℓ} {K V : Type ℓ} (dec : Discrete K) where
  run-Tracks :
      (l older : List (Request K V)) (c : Cache K V)
      → IsValid dec c
      → Tracks dec (last_use dec older) (length older) c.store
      → Tracks dec
          (last_use dec (record_all l older))
          (length (record_all l older))
          (run dec l c).store
  unfolding run
  run-Tracks [] older c h t = t
  run-Tracks (r ∷ rest) older c h t =
      run-Tracks rest (r ∷ older) (perform dec r c) (perform-IsValid dec r c h)
        (perform-Tracks dec older c h t r)

  -- `popitem` takes the first entry of an ordered store.
  split_first :
      (use_of : K → ℕ) (d : List (K × V))
      → 1 ≤ length d
      → IsOrdered dec use_of d
      → (q : K) × (w : V) × (d ≡ (q, w) ∷ pop_first d)
        × All (λ e. use_of q < use_of e.0) (pop_first d)
  unfolding pop_first
  split_first use_of [] h o = absurd (omega arith)
  split_first use_of ((q, w) ∷ d) h o = (q, w, refl, o.0)

  insert_full :
      (c : Cache K V) (k : K) (v : V)
      → c.max_capacity ≤ length c.store
      → (insert dec c k v).store ≡ pop_first c.store ++ (k, v) ∷ []
  unfolding insert
  insert_full c k v h = ground arith

  -- Whatever requests a new cache has served, if it is full and `set` brings a new key, then the
  -- first entry of its store goes, all others stay in their order with the new one behind them, and
  -- the key that goes was last used before every key that stays.
  pub set-least_recent :
      (l : List (Request K V)) (c : Cache K V) (k : K) (v : V)
      → IsValid dec c
      → c.store ≡ []
      → Dict.get dec k (run dec l c).store ≡ none
      → (run dec l c).max_capacity ≤ length (run dec l c).store
      → (q : K) × (w : V) × (rest : List (K × V)) × ((run dec l c).store ≡ (q, w) ∷ rest)
        × ((perform dec (set k v) (run dec l c)).store ≡ rest ++ (k, v) ∷ [])
        × All (λ e. last_use dec (record_all l []) q < last_use dec (record_all l []) e.0) rest
  unfolding perform
  set-least_recent l c k v h empty miss full =
      let d = run dec l c in
      let t = run-Tracks l [] c h (rw empty (record { ordered = tt; past = tt })) in
      let room = (run-IsValid dec l c h).positive in
      let (q, w, e, first) =
        split_first (last_use dec (record_all l [])) d.store (omega arith) t.ordered in
      (
        q,
        w,
        pop_first d.store,
        e,
        ap (λ x. x.store) (set_absent dec k v d miss) ∙ insert_full d k v full,
        first,
      )
