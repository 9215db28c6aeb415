-- ===== src/SlidingWindow.antt =====
-- src/middleware/rate_limiter.py: the sliding-window limiter of consumers' requests and the
-- middleware around it. Times are readings of the monotonic clock, and of the wall clock where a
-- reset time is announced, in nanoseconds. A consumer is given by the identifier that the
-- middleware derives from the request's headers. The lock of a consumer is held in each operation.
pub mod Windows
pub mod Attempts
pub mod Bound
pub mod Alone
pub mod Retry
use data_service.Common.{
  ℕ, ◌+◌, ◌-◌, ◌*◌, ◌/◌, String, Bool, true, false, Option, none, some, List, [], ◌∷◌, ◌++◌, leb,
  length, if◌then◌else◌, ite, String_discrete,
}
use data_service.Common.Dict

abbrev pub second : ℕ
second = 1000000000

-- `SlidingWindowRateLimiter`; a window is its deque of timestamps, the oldest first.
pub record Limiter : Type 0 where
  pub default_limit : ℕ
  pub default_window_sec : ℕ
  pub windows : List (String × List ℕ)

unfoldable pub init : ℕ → ℕ → Limiter
init limit window_sec = record {
  default_limit = limit;
  default_window_sec = window_sec;
  windows = [];
}

abbrev pub given_or {ℓ} : {A : Type ℓ} → Option A → A → A
given_or none d = d
given_or (some x) d = x

register : String → Option (List ℕ) → Limiter → Limiter
register consumer none l = record l { windows = Dict.put String_discrete consumer [] l.windows }
register consumer (some w) l = l

-- `_get_lock`: the first request of a consumer makes its empty window.
unfoldable pub get_lock : String → Limiter → Limiter
unfolding register
get_lock consumer l = register consumer (Dict.get String_discrete consumer l.windows) l

-- `_windows[consumer_id]`, which `_get_lock` has made.
unfoldable pub window_of : String → Limiter → List ℕ
window_of consumer l = given_or (Dict.get String_discrete consumer l.windows) []

unfoldable pub set_window : String → List ℕ → Limiter → Limiter
set_window consumer w l = record l { windows = Dict.put String_discrete consumer w l.windows }

-- The loop of `_prune`. `window[0] <= now - span` is written without the subtraction.
unfoldable pub prune : ℕ → ℕ → List ℕ → List ℕ
prune now span [] = []
prune now span (t ∷ ts) =
    let rest = prune now span ts in if leb (t + span) now then rest else t ∷ ts

-- The test of `is_allowed` on a window that has been pruned.
unfoldable pub decide : ℕ → ℕ → List ℕ → List ℕ × Bool
decide now limit w = if leb limit (length w) then (w, false) else (w ++ now ∷ [], true)

unfoldable pub is_allowed : ℕ → String → Option ℕ → Option ℕ → Limiter → Limiter × Bool
unfolding get_lock window_of set_window prune decide
is_allowed now consumer limit window_sec l =
    let l' = get_lock consumer l in
    let w = prune now (given_or window_sec l.default_window_sec * second) (window_of consumer l') in
    let (w', allowed) = decide now (given_or limit l.default_limit) w in
    (set_window consumer w' l', allowed)

unfoldable pub get_usage : ℕ → String → Option ℕ → Limiter → Limiter × ℕ
unfolding get_lock window_of set_window prune
get_usage now consumer window_sec l =
    let l' = get_lock consumer l in
    let w = prune now (given_or window_sec l.default_window_sec * second) (window_of consumer l') in
    (set_window consumer w l', length w)

-- `int` cuts off the fraction of a second; `-` stops at 0, as the source's `max` does.
unfoldable pub reset_epoch : ℕ → ℕ → ℕ → List ℕ → ℕ
reset_epoch now wall span [] = wall / second
reset_epoch now wall span (t ∷ ts) = (wall + (t + span - now)) / second

unfoldable pub get_reset_epoch : ℕ → ℕ → String → Option ℕ → Limiter → Limiter × ℕ
unfolding get_lock window_of set_window prune reset_epoch
get_reset_epoch now wall consumer window_sec l =
    let span = given_or window_sec l.default_window_sec * second in
    let l' = get_lock consumer l in
    let w = prune now span (window_of consumer l') in
    (set_window consumer w l', reset_epoch now wall span w)

unfoldable pub reset : String → Limiter → Limiter
unfolding get_lock set_window
reset consumer l = set_window consumer [] (get_lock consumer l)

-- `RateLimitMiddleware`
pub record Middleware : Type 0 where
  pub limit : ℕ
  pub window_sec : ℕ
  pub exempt_paths : List String
  pub limiter : Limiter

-- The clock at each reading of one `dispatch`.
pub record Readings : Type 0 where
  pub asked : ℕ
  pub used : ℕ
  pub announced : ℕ
  pub announced_wall : ℕ
  pub refused_wall : ℕ

-- What the middleware answers: the request goes on without limit, or goes on with the three
-- headers, or is answered with 429, the headers and `retryAfterMs`.
pub data Reply : Type 0 where
  bypassed : Reply
  forwarded : ℕ → ℕ → ℕ → Reply
  too_many_requests : ℕ → ℕ → ℕ → ℕ → ℕ → Reply

is_exempt : String → List String → Bool
is_exempt path [] = false
is_exempt path (p ∷ ps) = ite (String_discrete path p) true (is_exempt path ps)

reply_to : Bool → ℕ → ℕ → ℕ → ℕ → Reply
reply_to false limit usage reset wall =
    let retry_after = reset - wall / second in
    too_many_requests limit 0 reset retry_after (retry_after * 1000)
reply_to true limit usage reset wall = forwarded limit (limit - usage) reset

unfoldable pub dispatch : Readings → String → String → Middleware → Middleware × Reply
unfolding is_exempt reply_to is_allowed get_usage get_reset_epoch
dispatch r path consumer m =
    if is_exempt path m.exempt_paths
    then (m, bypassed)
    else let (l, allowed) =
        is_allowed r.asked consumer (some m.limit) (some m.window_sec) m.limiter in
      let (l', usage) = get_usage r.used consumer (some m.window_sec) l in
      let (l'', reset) =
        get_reset_epoch r.announced r.announced_wall consumer (some m.window_sec) l' in
      (record m { limiter = l'' }, reply_to allowed m.limit usage reset r.refused_wall)
