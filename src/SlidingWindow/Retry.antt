-- ===== src/SlidingWindow/Retry.antt =====
-- A consumer that was refused is served again once the announced time has passed.
use data_service.Common.{
  ℕ, ◌+◌, ◌-◌, ◌*◌, ◌≤◌, ◌<◌, ◌≡◌, ◌≢◌, refl, sym, ◌∙◌, ap, subst, String, true, false, none, List,
  [], ◌∷◌, length, arith,
}
use mathlib.Core.Path.{ap₂}
use native.Mathlib.Nat.{lt-div-mul-add}
use data_service.SlidingWindow.{
  Limiter, window_of, prune, decide, is_allowed, get_reset_epoch, reset_epoch, second,
}
use data_service.SlidingWindow.Windows.{
  is_allowed-own, is_allowed-answer, is_allowed-defaults, get_lock-windows,
}

length-prune : (now span : ℕ) (w : List ℕ) → length (prune now span w) ≤ length w
unfolding prune
length-prune now span [] = omega arith
length-prune now span (t ∷ ts) = ground (arith, length-prune now span ts)

prune_twice : (now span : ℕ) (w : List ℕ) → prune now span (prune now span w) ≡ prune now span w
unfolding prune
prune_twice now span [] = refl
prune_twice now span (t ∷ ts) = ground (arith, prune_twice now span ts)

-- The oldest request is gone once its time plus the span has come.
oldest-gone :
    (later span t : ℕ) (ts : List ℕ)
    → t + span ≤ later
    → length (prune later span (t ∷ ts)) < length (t ∷ ts)
unfolding prune
oldest-gone later span t ts le = ground (arith, length-prune later span ts)

passed :
    (now wall later span : ℕ) (w : List ℕ)
    → w ≢ []
    → (reset_epoch now wall span w + 1) * second ≤ wall + (later - now)
    → length (prune later span w) < length w
unfolding reset_epoch
passed now wall later span [] some_request h = absurd (some_request refl)
passed now wall later span (t ∷ ts) some_request h =
    oldest-gone later span t ts
      (omega (arith, lt-div-mul-add {a = wall + (t + span - now)} {b = second} (omega arith)))

decide-refused :
    (now limit : ℕ) (w : List ℕ)
    → (decide now limit w).1 ≡ false
    → ((decide now limit w).0 ≡ w) × (limit ≤ length w)
unfolding decide
decide-refused now limit w h = ground arith

decide-room : (now limit : ℕ) (w : List ℕ) → length w < limit → (decide now limit w).1 ≡ true
unfolding decide
decide-room now limit w h = ground arith

ne_nil : (w : List ℕ) → 0 < length w → w ≢ []
ne_nil [] h = absurd (omega arith)
ne_nil (t ∷ ts) h = λ e. cc

get_reset_epoch-own :
    (now wall : ℕ) (consumer : String) (l : Limiter)
    → (get_reset_epoch now wall consumer none l).1
      ≡ reset_epoch now wall
          (l.default_window_sec * second)
          (prune now (l.default_window_sec * second) (window_of consumer l))
unfolding get_reset_epoch
get_reset_epoch-own now wall consumer l =
    ap
      (λ w.
        reset_epoch now wall (l.default_window_sec * second)
          (prune now (l.default_window_sec * second) w))
      (get_lock-windows consumer consumer l)

-- The window of a refused consumer.
module _ (now : ℕ) (consumer : String) (l : Limiter)
    (refused : (is_allowed now consumer none none l).1 ≡ false) where
  abbrev span : ℕ
  span = l.default_window_sec * second

  abbrev left : List ℕ
  left = prune now span (window_of consumer l)

  refused-decide : (decide now l.default_limit left).1 ≡ false
  refused-decide = sym (is_allowed-answer now consumer l) ∙ refused

  refused-window : window_of consumer (is_allowed now consumer none none l).0 ≡ left
  refused-window =
      is_allowed-own now consumer l ∙ (decide-refused now l.default_limit left refused-decide).0

  refused-full : l.default_limit ≤ length left
  refused-full = (decide-refused now l.default_limit left refused-decide).1

  refused-epoch :
      (wall : ℕ)
      → (get_reset_epoch now wall consumer none (is_allowed now consumer none none l).0).1
        ≡ reset_epoch now wall span left
  refused-epoch wall =
      let (same_limit, same_window) = is_allowed-defaults now consumer l in
      get_reset_epoch-own now wall consumer (is_allowed now consumer none none l).0
      ∙ ap
          (λ s.
            reset_epoch now wall (s * second)
              (prune now (s * second) (window_of consumer (is_allowed now consumer none none l).0)))
          same_window
      ∙ ap (λ w. reset_epoch now wall span (prune now span w)) refused-window
      ∙ ap (reset_epoch now wall span) (prune_twice now span (window_of consumer l))

-- A consumer within a limit of at least one that is refused is granted its next request, if it asks
-- after the second of the wall clock that the limiter then announces as its reset time has passed.
pub refused-retry :
    (now wall later : ℕ) (consumer : String) (l : Limiter)
    → 0 < l.default_limit
    → length (window_of consumer l) ≤ l.default_limit
    → (is_allowed now consumer none none l).1 ≡ false
    → let l' = (is_allowed now consumer none none l).0 in
      ((get_reset_epoch now wall consumer none l').1 + 1) * second ≤ wall + (later - now)
      → (is_allowed later consumer none none l').1 ≡ true
refused-retry now wall later consumer l limited within refused h =
    let l' = (is_allowed now consumer none none l).0 in
    let (same_limit, same_window) = is_allowed-defaults now consumer l in
    let w = left now consumer l refused in
    let window = l.default_window_sec * second in
    let fewer : length (prune later window w) < length w =
      passed now wall later window w (ne_nil w (omega (arith, refused-full now consumer l refused)))
        (subst (λ r. (r + 1) * second ≤ wall + (later - now))
          (refused-epoch now consumer l refused wall) h) in
    let kept =
      ap₂ (λ s v. length (prune later (s * second) v)) same_window
        (refused-window now consumer l refused) in
    is_allowed-answer later consumer l'
    ∙ decide-room later l'.default_limit _
        (omega (arith, fewer, kept, same_limit, length-prune now window (window_of consumer l)))
