-- ===== src/SlidingWindow/Windows.antt =====
-- How an operation of the sliding-window limiter changes the windows: only that of its consumer.
use data_service.Common.{
  ℕ, ◌*◌, ◌≡◌, ◌≢◌, refl, ◌∙◌, ap, String, Bool, Option, none, some, List, [], String_discrete,
  if_pos, if_neg,
}
use data_service.Common.Dict
use data_service.SlidingWindow.{
  Limiter, given_or, register, get_lock, window_of, set_window, prune, decide, is_allowed, second,
}

register-windows :
    (consumer q : String) (o : Option (List ℕ)) (l : Limiter)
    → Dict.get String_discrete consumer l.windows ≡ o
    → window_of q (register consumer o l) ≡ window_of q l
unfolding window_of register
register-windows consumer q (some w) l e = refl
register-windows consumer q none l e = elim (String_discrete consumer q) [
  | yes p ↦ rw (Dict.get-put, if_pos (String_discrete consumer q) p, ← p, e)
  | no n ↦ rw (Dict.get-put, if_neg (String_discrete consumer q) n)
]

-- Making an empty window changes no reading.
pub get_lock-windows :
    (consumer q : String) (l : Limiter) → window_of q (get_lock consumer l) ≡ window_of q l
unfolding get_lock
get_lock-windows consumer q l = register-windows consumer q _ l refl

pub set_window-own :
    (consumer : String) (w : List ℕ) (l : Limiter)
    → window_of consumer (set_window consumer w l) ≡ w
unfolding window_of set_window
set_window-own consumer w l =
    ap (λ o. given_or o []) (Dict.get-put_self String_discrete consumer w l.windows)

set_window-other :
    (consumer q : String) (w : List ℕ) (l : Limiter)
    → consumer ≢ q
    → window_of q (set_window consumer w l) ≡ window_of q l
unfolding window_of set_window
set_window-other consumer q w l n =
    ap (λ o. given_or o []) (Dict.get-put_ne String_discrete consumer q w l.windows n)

-- What `is_allowed` does to the window of its consumer.
abbrev pub decide_all : ℕ → Limiter → List ℕ → List ℕ × Bool
decide_all now l w = decide now l.default_limit (prune now (l.default_window_sec * second) w)

pub is_allowed-own :
    (now : ℕ) (consumer : String) (l : Limiter)
    → window_of consumer (is_allowed now consumer none none l).0
      ≡ (decide_all now l (window_of consumer l)).0
unfolding is_allowed
is_allowed-own now consumer l =
    set_window-own consumer _ (get_lock consumer l)
    ∙ ap (λ w. (decide_all now l w).0) (get_lock-windows consumer consumer l)

pub is_allowed-other :
    (now : ℕ) (consumer q : String) (l : Limiter)
    → consumer ≢ q
    → window_of q (is_allowed now consumer none none l).0 ≡ window_of q l
unfolding is_allowed
is_allowed-other now consumer q l n =
    set_window-other consumer q _ (get_lock consumer l) n ∙ get_lock-windows consumer q l

pub is_allowed-answer :
    (now : ℕ) (consumer : String) (l : Limiter)
    → (is_allowed now consumer none none l).1 ≡ (decide_all now l (window_of consumer l)).1
unfolding is_allowed
is_allowed-answer now consumer l =
    ap (λ w. (decide_all now l w).1) (get_lock-windows consumer consumer l)

register-defaults :
    (consumer : String) (o : Option (List ℕ)) (l : Limiter)
    → ((register consumer o l).default_limit ≡ l.default_limit)
      × ((register consumer o l).default_window_sec ≡ l.default_window_sec)
unfolding register
register-defaults consumer none l = (refl, refl)
register-defaults consumer (some w) l = (refl, refl)

pub is_allowed-defaults :
    (now : ℕ) (consumer : String) (l : Limiter)
    → ((is_allowed now consumer none none l).0.default_limit ≡ l.default_limit)
      × ((is_allowed now consumer none none l).0.default_window_sec ≡ l.default_window_sec)
unfolding is_allowed set_window get_lock
is_allowed-defaults now consumer l = register-defaults consumer _ l
