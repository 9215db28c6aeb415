-- ===== src/RateLimiter/Bucket.antt =====
-- What a token bucket promises: a bounded rate, and a token once enough time has passed.
use data_service.Common.{
  ℕ, suc, ◌+◌, ◌-◌, ◌*◌, ◌≤◌, ◌≡◌, true, List, [], ◌∷◌, if◌then◌else◌, arith, Bool-cases, inl, inr,
}
use mathlib.Core.Path.{subst₂}
use data_service.RateLimiter.{LocalBucket, try_consume, token}

-- A bucket is consistent at a time: it is not overfull, and was last refilled before.
pub record IsConsistent (now : ℕ) (b : LocalBucket) : Type 0 where
  pub bounded : b.tokens ≤ b.capacity
  pub past : b.last_refill_ts ≤ now

-- The same bucket after trying once at each of the given times.
unfoldable pub consume_all : List ℕ → LocalBucket → LocalBucket
consume_all [] b = b
consume_all (now ∷ rest) b = consume_all rest (try_consume now b).0

-- How many of the tries were granted.
unfoldable pub grants : List ℕ → LocalBucket → ℕ
grants [] b = 0
grants (now ∷ rest) b =
    let (b', granted) = try_consume now b in
    if granted then suc (grants rest b') else grants rest b'

-- The clock does not go back, and ends at or before `limit`.
abbrev pub IsMonotone : ℕ → ℕ → List ℕ → Type 0
IsMonotone now limit [] = now ≤ limit
IsMonotone now limit (t ∷ rest) = (now ≤ t) × IsMonotone t limit rest

try_consume-IsConsistent :
    (before now : ℕ) (b : LocalBucket)
    → before ≤ now
    → IsConsistent before b
    → IsConsistent now (try_consume now b).0
unfolding try_consume
try_consume-IsConsistent before now b le c = ground arith

try_consume-rate :
    (before now : ℕ) (b : LocalBucket)
    → IsConsistent before b
    → before ≤ now
    → let (b', granted) = try_consume now b in
      (b'.refill_rate ≡ b.refill_rate)
      × (b'.capacity ≡ b.capacity)
      × (b'.last_refill_ts ≡ now)
      × ((if granted then token else 0) + b'.tokens
          ≤ b.tokens + (now - b.last_refill_ts) * b.refill_rate)
unfolding try_consume
try_consume-rate before now b c le = ground arith

IsMonotone-le : (now limit : ℕ) (l : List ℕ) → IsMonotone now limit l → now ≤ limit
IsMonotone-le now limit [] h = h
IsMonotone-le now limit (t ∷ rest) h = omega (arith, IsMonotone-le t limit rest h.1)

split_elapsed :
    (last now limit rate : ℕ)
    → last ≤ now
    → now ≤ limit
    → (now - last) * rate + (limit - now) * rate ≡ (limit - last) * rate
split_elapsed last now limit rate h k =
    let e : limit - last ≡ (now - last) + (limit - now) = omega arith in rw e (omega arith)

-- Over any run of tries of a consistent bucket, at times that do not go back, the tokens granted
-- and the tokens left never exceed the tokens at the start and what the refill rate adds until the
-- end of the run.
pub grants_bounded :
    (before limit : ℕ) (l : List ℕ) (b : LocalBucket)
    → IsConsistent before b
    → IsMonotone before limit l
    → grants l b * token + (consume_all l b).tokens
      ≤ b.tokens + (limit - b.last_refill_ts) * b.refill_rate
unfolding grants consume_all
grants_bounded before limit [] b c m = omega arith
grants_bounded before limit (now ∷ rest) b c m =
    let (rate, capacity, refilled, spent) = try_consume-rate before now b c m.0 in
    let c' = try_consume-IsConsistent before now b m.0 c in
    let ih = grants_bounded now limit rest (try_consume now b).0 c' m.1 in
    let e =
      split_elapsed b.last_refill_ts now limit b.refill_rate (omega arith)
        (IsMonotone-le now limit rest m.1) in
    let ih' : grants rest (try_consume now b).0 * token
          + (consume_all rest (try_consume now b).0).tokens
        ≤ (try_consume now b).0.tokens + (limit - now) * b.refill_rate =
      subst₂
        (λ t r.
          grants rest (try_consume now b).0 * token
            + (consume_all rest (try_consume now b).0).tokens
          ≤ (try_consume now b).0.tokens + (limit - t) * r)
        refilled rate ih in
    elim (Bool-cases (try_consume now b).1) [
      | inl granted ↦ rw granted (omega (arith, ih', e, rw granted at spent))
      | inr refused ↦ rw refused (omega (arith, ih', e, rw refused at spent))
    ]

-- A consistent bucket with room for a token grants one once the refill rate has made up for what is
-- missing from it.
pub try_consume-grants :
    (before now : ℕ) (b : LocalBucket)
    → IsConsistent before b
    → before ≤ now
    → token ≤ b.capacity
    → token ≤ b.tokens + (now - b.last_refill_ts) * b.refill_rate
    → (try_consume now b).1 ≡ true
unfolding try_consume
try_consume-grants before now b c le room enough = ground arith
