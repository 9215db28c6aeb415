-- ===== src/RateLimiter.antt =====
-- src/providers/rate_limiter.py: the token buckets of the provider gateway and the bounded queue of
-- callers that wait for a token. Times are readings of the monotonic clock in nanoseconds and
-- amounts are billionths of a token, so that `elapsed * refill_rate` is exact for a whole rate; the
-- burst multiplier is given in billionths too. What Redis answers to the script is an argument.
pub mod Bucket
pub mod Queue
pub mod Calls
use data_service.Common.{
  ℕ, zero, suc, ◌+◌, ◌-◌, ◌*◌, min, String, Bool, true, false, ◌&&◌, Option, none, some, List, [],
  ◌∷◌, leb, ltb, if◌then◌else◌, String_discrete, Pair_discrete, Result, ok, err, ◌>>=◌,
}
use data_service.Common.Dict

abbrev pub token : ℕ
token = 1000000000

abbrev pub default_rps : ℕ
default_rps = 1

abbrev pub provider_rate_limits : List (String × ℕ)
provider_rate_limits =
    ("angel_one", 3)
    ∷ ("upstox", 50)
    ∷ ("scrapling_nse", 2)
    ∷ ("jugaad_data", 1)
    ∷ ("openchart", 5)
    ∷ ("yahoo_finance", 1)
    ∷ ("binance", 20)
    ∷ ("deribit", 5)
    ∷ ("delta", 10)
    ∷ []

pub record LocalBucket : Type 0 where
  pub capacity : ℕ
  pub tokens : ℕ
  pub refill_rate : ℕ
  pub last_refill_ts : ℕ

-- The monotonic clock does not go back, so `now - last_refill_ts` is exact.
unfoldable pub refill : ℕ → LocalBucket → LocalBucket
refill now b = record b {
  tokens = min b.capacity (b.tokens + (now - b.last_refill_ts) * b.refill_rate);
  last_refill_ts = now;
}

unfoldable pub try_consume : ℕ → LocalBucket → LocalBucket × Bool
unfolding refill
try_consume now b =
    let b' = refill now b in
    if leb token b'.tokens then (record b' { tokens = b'.tokens - token }, true) else (b', false)

abbrev pub Key : Type 0
Key = String × String

abbrev pub Key_discrete : Discrete Key
Key_discrete = Pair_discrete String_discrete String_discrete

pub record Limiter : Type 0 where
  pub has_redis : Bool
  pub queue_max_depth : ℕ
  pub burst_multiplier : ℕ
  pub waiting : List (Key × ℕ)
  pub local_buckets : List (Key × LocalBucket)

pub data LimiterError : Type 0 where
  value_error timeout_error : LimiterError
  provider_queue_full : String → String → ℕ → LimiterError

unfoldable pub init : Bool → ℕ → ℕ → Result LimiterError Limiter
init has_redis depth burst =
    if leb 1 depth && leb depth 10000
    then if leb burst 0
      then err value_error
      else ok (record {
        has_redis = has_redis;
        queue_max_depth = depth;
        burst_multiplier = burst;
        waiting = [];
        local_buckets = [];
      })
    else err value_error

abbrev value_or {ℓ} : {A : Type ℓ} → Option A → A → A
value_or none d = d
value_or (some x) d = x

unfoldable pub get_rps : String → ℕ
get_rps provider = value_or (Dict.get String_discrete provider provider_rate_limits) default_rps

-- `_get_or_create_local_bucket`: a new bucket is full.
unfoldable pub new_bucket : ℕ → ℕ → ℕ → LocalBucket
new_bucket now rps burst = record {
  capacity = rps * burst;
  tokens = rps * burst;
  refill_rate = rps;
  last_refill_ts = now;
}

-- The local fallback of `try_acquire`. `created` is the clock when a missing bucket is made.
unfoldable pub local_try_acquire : ℕ → ℕ → Key → Limiter → Limiter × Bool
unfolding try_consume new_bucket get_rps
local_try_acquire created now key l =
    let fresh = new_bucket created (get_rps key.0) l.burst_multiplier in
    let (b, granted) =
      try_consume now (value_or (Dict.get Key_discrete key l.local_buckets) fresh) in
    (record l { local_buckets = Dict.put Key_discrete key b l.local_buckets }, granted)

-- What the call to Redis comes back with: an error, or whether the script granted a token.
pub data RedisAnswer : Type 0 where
  unavailable : RedisAnswer
  granted : Bool → RedisAnswer

with_redis : RedisAnswer → ℕ → ℕ → Key → Limiter → Limiter × Bool
unfolding local_try_acquire
with_redis unavailable created now key l = local_try_acquire created now key l
with_redis (granted answer) created now key l = (l, answer)

unfoldable pub try_acquire : RedisAnswer → ℕ → ℕ → Key → Limiter → Limiter × Bool
unfolding with_redis local_try_acquire
try_acquire answer created now key l =
    if l.has_redis then with_redis answer created now key l else local_try_acquire created now key l

unfoldable pub queue_depth : Key → Limiter → ℕ
queue_depth key l = value_or (Dict.get Key_discrete key l.waiting) 0

-- `_increment_waiting`
unfoldable pub increment_waiting : Key → Limiter → Limiter
unfolding queue_depth
increment_waiting key l = record l {
  waiting = Dict.put Key_discrete key (queue_depth key l + 1) l.waiting;
}

decrement_at : Key → Option ℕ → Limiter → Limiter
decrement_at key none l = l
decrement_at key (some n) l = record l { waiting = Dict.put Key_discrete key (n - 1) l.waiting }

-- `_decrement_waiting`: `max(0, n - 1)` is `n - 1` on the natural numbers.
unfoldable pub decrement_waiting : Key → Limiter → Limiter
unfolding decrement_at
decrement_waiting key l = decrement_at key (Dict.get Key_discrete key l.waiting) l

-- The start of `acquire`: a caller is refused or joins the queue.
unfoldable pub enter : Key → Limiter → Result LimiterError Limiter
unfolding queue_depth increment_waiting
enter key l =
    if leb l.queue_max_depth (queue_depth key l)
    then err (provider_queue_full key.0 key.1 l.queue_max_depth)
    else ok (increment_waiting key l)

-- One round of the loop of `acquire`: the answer of Redis, and the clock when a bucket is made,
-- when it is refilled, and at the test of the deadline.
pub record Poll : Type 0 where
  pub answer : RedisAnswer
  pub created : ℕ
  pub now : ℕ
  pub checked : ℕ

pub data Verdict : Type 0 where
  acquired timed_out waiting : Verdict

unfoldable pub poll : Poll → ℕ → Key → Limiter → Limiter × Verdict
unfolding try_acquire
poll p deadline key l =
    let (l', got) = try_acquire p.answer p.created p.now key l in
    if got
    then (l', acquired)
    else if leb deadline p.checked
    then (l', timed_out)
    else (l', waiting)

-- `acquire` of one caller that is alone: the rounds until the loop ends, and the `finally` block.
-- It comes back with `waiting` if the given rounds do not end the loop.
rounds : List Poll → ℕ → Key → Limiter → Limiter × Verdict
rounds [] deadline key l = (l, waiting)
rounds (p ∷ ps) deadline key l =
    let (l', verdict) = poll p deadline key l in
    elim verdict [
      | acquired ↦ (l', acquired)
      | timed_out ↦ (l', timed_out)
      | waiting ↦ rounds ps deadline key l'
    ]

finish : Key → Limiter × Verdict → Limiter × Verdict
finish key (l, acquired) = (decrement_waiting key l, acquired)
finish key (l, timed_out) = (decrement_waiting key l, timed_out)
finish key (l, waiting) = (l, waiting)

unfoldable pub acquire : List Poll → ℕ → Key → Limiter → Result LimiterError (Limiter × Verdict)
unfolding rounds finish
acquire ps deadline key l = do l' ← enter key l; ok (finish key (rounds ps deadline key l'))
