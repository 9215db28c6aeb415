-- ===== src/RateLimiter/Queue.antt =====
-- The queue of waiting callers: any interleaving of callers keeps the counters equal to the number
-- of callers inside `acquire`, and never lets more in than the queue holds.
use data_service.Common.{
  ℕ, suc, ◌+◌, ◌-◌, ◌≤◌, ◌<◌, ◌≡◌, refl, ◌∙◌, ap, subst, Option, none, some, List, [], ◌∷◌, ◌++◌,
  ite, if_pos, if_neg, arith, ok,
}
use data_service.Common.Dict
use data_service.RateLimiter.{
  Limiter, Key, Key_discrete, queue_depth, increment_waiting, decrement_waiting, decrement_at,
  enter, Poll, poll, value_or,
}

abbrev pub count : Key → List Key → ℕ
count k [] = 0
count k (c ∷ cs) = ite (Key_discrete c k) (suc (count k cs)) (count k cs)

-- The limiter and the callers inside `acquire`, each given by its key.
pub record System : Type 0 where
  pub limiter : Limiter
  pub inside : List Key

pub data Step (s : System) : System → Type 0 where
  join :
      (key : Key) (l : Limiter)
      → enter key s.limiter ≡ ok l
      → Step s (record { limiter = l; inside = key ∷ s.inside })
  try_again :
      (p : Poll) (deadline : ℕ) (key : Key)
      → Step s (record { limiter = (poll p deadline key s.limiter).0; inside = s.inside })
  leave :
      (key : Key) (before after : List Key)
      → s.inside ≡ before ++ key ∷ after
      → Step s (record { limiter = decrement_waiting key s.limiter; inside = before ++ after })

pub data Reach (s : System) : System → Type 0 where
  here : Reach s s
  next : {t u : System} → Reach s t → Step t u → Reach s u

-- Every counter is the number of callers with its key, and none exceeds the depth of the queue.
pub record IsBounded (depth : ℕ) (s : System) : Type 0 where
  pub configured : s.limiter.queue_max_depth ≡ depth
  pub counted : (key : Key) → queue_depth key s.limiter ≡ count key s.inside
  pub bounded : (key : Key) → count key s.inside ≤ depth

pub queue_depth-increment :
    (key q : Key) (l : Limiter)
    → queue_depth q (increment_waiting key l)
      ≡ ite (Key_discrete key q) (suc (queue_depth q l)) (queue_depth q l)
unfolding queue_depth increment_waiting
queue_depth-increment key q l = elim (Key_discrete key q) [
  | yes e ↦
      rw (Dict.get-put, if_pos (Key_discrete key q) e, if_pos (Key_discrete key q) e)
        (ap (λ k. value_or (Dict.get Key_discrete k l.waiting) 0 + 1) e ∙ omega arith)
  | no n ↦ rw (Dict.get-put, if_neg (Key_discrete key q) n, if_neg (Key_discrete key q) n)
]

decrement_at-waiting :
    (key q : Key) (l : Limiter) (o : Option ℕ)
    → Dict.get Key_discrete key l.waiting ≡ o
    → queue_depth q (decrement_at key o l)
      ≡ ite (Key_discrete key q) (queue_depth q l - 1) (queue_depth q l)
unfolding queue_depth decrement_at
decrement_at-waiting key q l none h = elim (Key_discrete key q) [
  | yes e ↦ rw (if_pos (Key_discrete key q) e, ← e, h)
  | no n ↦ rw (if_neg (Key_discrete key q) n)
]
decrement_at-waiting key q l (some n) h = elim (Key_discrete key q) [
  | yes e ↦ rw (Dict.get-put, if_pos (Key_discrete key q) e, if_pos (Key_discrete key q) e, ← e, h)
  | no n ↦ rw (Dict.get-put, if_neg (Key_discrete key q) n, if_neg (Key_discrete key q) n)
]

pub queue_depth-decrement :
    (key q : Key) (l : Limiter)
    → queue_depth q (decrement_waiting key l)
      ≡ ite (Key_discrete key q) (queue_depth q l - 1) (queue_depth q l)
unfolding decrement_waiting
queue_depth-decrement key q l = decrement_at-waiting key q l _ refl

-- Trying for a token touches neither the counters nor the configuration.
pub poll-waiting :
    (p : Poll) (deadline : ℕ) (key : Key) (l : Limiter)
    → ((poll p deadline key l).0.waiting ≡ l.waiting)
      × ((poll p deadline key l).0.queue_max_depth ≡ l.queue_max_depth)
unfolding poll
poll-waiting p deadline key l = ground arith

count-middle :
    (k c : Key) (xs ys : List Key)
    → count k (xs ++ c ∷ ys)
      ≡ ite (Key_discrete c k) (suc (count k (xs ++ ys))) (count k (xs ++ ys))
count-middle k c [] ys = refl
count-middle k c (x ∷ xs) ys = ground (arith, count-middle k c xs ys)

decrement_at-configured :
    (key : Key) (l : Limiter) (o : Option ℕ)
    → (decrement_at key o l).queue_max_depth ≡ l.queue_max_depth
unfolding decrement_at
decrement_at-configured key l none = refl
decrement_at-configured key l (some n) = refl

decrement-configured :
    (key : Key) (l : Limiter) → (decrement_waiting key l).queue_max_depth ≡ l.queue_max_depth
unfolding decrement_waiting
decrement-configured key l = decrement_at-configured key l _

pub queue_depth-waiting :
    (q : Key) (l l' : Limiter) → l.waiting ≡ l'.waiting → queue_depth q l ≡ queue_depth q l'
unfolding queue_depth
queue_depth-waiting q l l' e = ap (λ w. value_or (Dict.get Key_discrete q w) 0) e

pub enter-ok :
    (key : Key) (l l' : Limiter)
    → enter key l ≡ ok l'
    → (increment_waiting key l ≡ l') × (queue_depth key l < l.queue_max_depth)
unfolding enter
enter-ok key l l' h = ground arith

module _ (depth : ℕ) (s : System) (v : IsBounded depth s) where
  room_for :
      (key q : Key)
      → queue_depth key s.limiter < s.limiter.queue_max_depth
      → count q (key ∷ s.inside) ≤ depth
  room_for key q room = elim (Key_discrete key q) [
    | yes e ↦
        rw (if_pos (Key_discrete key q) e)
          (omega (arith, v.counted key, v.configured, ap (λ k. count k s.inside) e))
    | no n ↦ rw (if_neg (Key_discrete key q) n) (v.bounded q)
  ]

  join-IsBounded :
      (key : Key)
      → queue_depth key s.limiter < s.limiter.queue_max_depth
      → IsBounded depth
          (record { limiter = increment_waiting key s.limiter; inside = key ∷ s.inside })
  join-IsBounded key room = record {
    configured = unfold increment_waiting in v.configured;
    counted = λ q. rw (queue_depth-increment, v.counted q);
    bounded = λ q. room_for key q room;
  }

  leave-IsBounded :
      (key : Key) (before after : List Key)
      → s.inside ≡ before ++ key ∷ after
      → IsBounded depth
          (record { limiter = decrement_waiting key s.limiter; inside = before ++ after })
  leave-IsBounded key before after e =
      let inside = λ (q : Key). v.counted q ∙ ap (count q) e ∙ count-middle q key before after in
      record {
        configured = decrement-configured key s.limiter ∙ v.configured;
        counted = λ q. queue_depth-decrement key q s.limiter ∙ (ground (arith, inside q));
        bounded = λ q. ground (arith, v.bounded q, ap (count q) e, count-middle q key before after);
      }

-- Every step keeps the counters exact and the queue bounded.
Step-IsBounded : (depth : ℕ) {s t : System} → Step s t → IsBounded depth s → IsBounded depth t
Step-IsBounded depth {s} (join key l h) v =
    let (e, room) = enter-ok key s.limiter l h in
    subst (λ x. IsBounded depth (record { limiter = x; inside = key ∷ s.inside })) e
      (join-IsBounded depth s v key room)
Step-IsBounded depth {s} (try_again p deadline key) v =
    let (same, config) = poll-waiting p deadline key s.limiter in
    record {
      configured = config ∙ v.configured;
      counted = λ q. queue_depth-waiting q _ s.limiter same ∙ v.counted q;
      bounded = v.bounded;
    }
Step-IsBounded depth {s} (leave key before after e) v = leave-IsBounded depth s v key before after e

-- From a state in which each counter is the number of callers inside with its key and none exceeds
-- the depth of the queue, callers that join, try and leave in any order reach only such states.
pub Reach-IsBounded : (depth : ℕ) {s t : System} → Reach s t → IsBounded depth s → IsBounded depth t
Reach-IsBounded depth here v = v
Reach-IsBounded depth (next r step) v = Step-IsBounded depth step (Reach-IsBounded depth r v)
