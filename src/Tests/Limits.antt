-- ===== src/Tests/Limits.antt =====
-- The token bucket and the queue at concrete states.
use data_service.Common.{
  ℕ, ◌+◌, ◌-◌, ◌*◌, ◌≤◌, ◌≡◌, refl, true, false, List, [], ◌∷◌, ok, err, arith, Pair_discrete,
  String_discrete,
}
use data_service.Common.Dict
use data_service.RateLimiter
use data_service.RateLimiter.{
  LocalBucket, Limiter, Key, Key_discrete, Poll, RedisAnswer, Verdict, acquire, enter,
  decrement_waiting, queue_depth, token, try_consume, poll, try_acquire, value_error,
}
use data_service.RateLimiter.Bucket.{IsConsistent, grants, consume_all, grants_bounded}
use data_service.RateLimiter.Queue.{
  System, Reach, here, next, join, leave, IsBounded, Reach-IsBounded,
}

-- Three tokens of room, one left; three come in a second.
abbrev bucket : LocalBucket
bucket = record { capacity = 3 * token; tokens = token; refill_rate = 3; last_refill_ts = 1000 }

bucket-IsConsistent : IsConsistent 1000 bucket
bucket-IsConsistent = record { bounded = omega arith; past = omega arith }

-- The second try comes too early, the third half a second later.
abbrev tries : List ℕ
tries = 1000 ∷ 2000 ∷ 500000000 ∷ []

grants_bounded_example :
    grants tries bucket * token + (consume_all tries bucket).tokens ≤ token + (500000000 - 1000) * 3
grants_bounded_example =
    grants_bounded 1000 500000000 tries bucket bucket-IsConsistent
      (omega arith, (omega arith, (omega arith, omega arith)))

tries-granted : grants tries bucket ≡ 2
unfolding grants try_consume
tries-granted = refl

abbrev drained : LocalBucket
drained = record bucket { tokens = 0 }

drained-IsConsistent : IsConsistent 1000 drained
drained-IsConsistent = record { bounded = omega arith; past = omega arith }

abbrev key : Key
key = ("upstox", "HISTORICAL_OHLCV")

abbrev limiter : Limiter
limiter = record {
  has_redis = true;
  queue_max_depth = 2;
  burst_multiplier = token;
  waiting = [];
  local_buckets = [];
}

abbrev busy : Limiter
busy = record limiter { waiting = (key, 1) ∷ [] }

abbrev idle_system : System
idle_system = record { limiter = limiter; inside = [] }

idle_system-IsBounded : IsBounded 2 idle_system
unfolding queue_depth Dict.get
idle_system-IsBounded = record {
  configured = refl;
  counted = λ q. refl;
  bounded = λ q. omega arith;
}

entered : enter key limiter ≡ ok busy
unfolding enter queue_depth RateLimiter.increment_waiting Dict.get Dict.put
entered = refl

-- One caller joins and leaves again.
joined_and_left : Reach idle_system (record { limiter = decrement_waiting key busy; inside = [] })
joined_and_left = next (next here (join key busy entered)) (leave key [] [] refl)

Reach-IsBounded_example : IsBounded 2 (record { limiter = decrement_waiting key busy; inside = [] })
Reach-IsBounded_example = Reach-IsBounded 2 joined_and_left idle_system-IsBounded

abbrev refused : Poll
refused = record { answer = RedisAnswer.granted false; created = 0; now = 0; checked = 50 }

abbrev served : Poll
served = record refused { answer = RedisAnswer.granted true }

-- The first answer of Redis is a refusal, the second a token.
acquire-runs :
    acquire (refused ∷ served ∷ []) 100 key limiter
    ≡ ok (record limiter { waiting = (key, 0) ∷ [] }, Verdict.acquired)
unfolding acquire poll try_acquire enter queue_depth decrement_waiting RateLimiter.increment_waiting
    Dict.get Dict.put Pair_discrete String_discrete
acquire-runs = refl

depth_checked : RateLimiter.init true 0 token ≡ err value_error
unfolding RateLimiter.init
depth_checked = refl
