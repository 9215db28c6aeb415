-- ===== src/Tests/Consumers.antt =====
-- The sliding-window limiter at concrete requests.
use data_service.Common.{
  ℕ, ◌+◌, ◌-◌, ◌*◌, ◌≤◌, ◌≡◌, refl, length, true, false, none, List, [], ◌∷◌, arith, String,
  String_discrete,
}
use data_service.Common.Dict
use data_service.SlidingWindow.{
  Limiter, Middleware, Readings, Reply, dispatch, window_of, is_allowed, get_reset_epoch, second,
}
use data_service.SlidingWindow.Attempts.{Attempt, granted, count_within}
use data_service.SlidingWindow.Bound.{granted-bounded_within}
use data_service.SlidingWindow.Retry.{refused-retry}

-- One request in ten seconds.
abbrev limiter : Limiter
limiter = record { default_limit = 1; default_window_sec = 10; windows = [] }

abbrev attempt_at : ℕ → String → Attempt
attempt_at sec consumer = record { now = sec * second; consumer = consumer }

abbrev attempts : List Attempt
attempts =
    attempt_at 100 "10.0.0.1"
    ∷ attempt_at 101 "10.0.0.2"
    ∷ attempt_at 105 "10.0.0.1"
    ∷ attempt_at 110 "10.0.0.1"
    ∷ []

limiter-new : window_of "10.0.0.1" limiter ≡ []
unfolding window_of Dict.get
limiter-new = refl

granted-bounded_within_example :
    count_within (110 * second) (10 * second) (granted "10.0.0.1" attempts limiter) ≤ 1
granted-bounded_within_example =
    granted-bounded_within 0 "10.0.0.1" attempts limiter limiter-new
      (omega arith, (omega arith, (omega arith, (omega arith, tt)))) (110 * second)

-- The third attempt is refused, the last one comes when the first has left the window.
attempts-granted : granted "10.0.0.1" attempts limiter ≡ 100 * second ∷ 110 * second ∷ []
unfolding granted is_allowed Dict.get Dict.put String_discrete
attempts-granted = refl

abbrev used : Limiter
used = record limiter { windows = ("10.0.0.1", 100 * second ∷ []) ∷ [] }

used-within : length (window_of "10.0.0.1" used) ≤ 1
unfolding window_of Dict.get String_discrete
used-within = omega arith

used-epoch :
    ((get_reset_epoch
          (105 * second)
          (1005 * second)
          "10.0.0.1"
          none
          (is_allowed (105 * second) "10.0.0.1" none none used).0).1
        + 1)
      * second
    ≤ 1005 * second + (111 * second - 105 * second)
unfolding get_reset_epoch is_allowed window_of Dict.get Dict.put String_discrete
used-epoch = omega arith

used-refused : (is_allowed (105 * second) "10.0.0.1" none none used).1 ≡ false
unfolding is_allowed window_of Dict.get Dict.put String_discrete
used-refused = refl

refused-retry_example :
    (is_allowed
      (111 * second)
      "10.0.0.1"
      none
      none
      (is_allowed (105 * second) "10.0.0.1" none none used).0).1
    ≡ true
refused-retry_example =
    refused-retry (105 * second) (1005 * second) (111 * second) "10.0.0.1" used (omega arith)
      used-within used-refused used-epoch

abbrev middleware : Middleware
middleware = record { limit = 1; window_sec = 10; exempt_paths = "/metrics" ∷ []; limiter = used }

abbrev readings : Readings
readings = record {
  asked = 105 * second;
  used = 105 * second;
  announced = 105 * second;
  announced_wall = 1005 * second;
  refused_wall = 1005 * second;
}

-- Five seconds are left of the window.
refusal :
    (dispatch readings "/v1/quotes" "10.0.0.1" middleware).1
    ≡ Reply.too_many_requests 1 0 1010 5 5000
unfolding dispatch is_allowed window_of Dict.get Dict.put String_discrete
refusal = refl

exemption : (dispatch readings "/metrics" "10.0.0.1" middleware).1 ≡ Reply.bypassed
unfolding dispatch String_discrete
exemption = refl
