-- ===== src/RateLimiter/Calls.antt =====
-- A whole call of `acquire`.
use data_service.Common.{
  ℕ, ◌≡◌, ◌≢◌, refl, sym, ◌∙◌, ap, List, [], ◌∷◌, arith, ◌⊎◌, inl, inr, >>=-eq-ok, ok,
}
use data_service.RateLimiter.{
  Limiter, Key, queue_depth, increment_waiting, decrement_waiting, enter, Poll, poll, Verdict,
  acquired, timed_out, waiting, rounds, finish, acquire,
}
use data_service.RateLimiter.Queue.{
  queue_depth-waiting, poll-waiting, queue_depth-increment, queue_depth-decrement, enter-ok,
}

Verdict-cases : (v : Verdict) → (v ≡ waiting) ⊎ (v ≡ acquired) ⊎ (v ≡ timed_out)
Verdict-cases waiting = inl refl
Verdict-cases acquired = inr (inl refl)
Verdict-cases timed_out = inr (inr refl)

rounds-depth :
    (q : Key) (ps : List Poll) (deadline : ℕ) (key : Key) (l : Limiter)
    → queue_depth q (rounds ps deadline key l).0 ≡ queue_depth q l
unfolding rounds
rounds-depth q [] deadline key l = refl
rounds-depth q (p ∷ ps) deadline key l =
    let l' = (poll p deadline key l).0 in
    let same = queue_depth-waiting q l' l (poll-waiting p deadline key l).0 in
    elim (Verdict-cases (poll p deadline key l).1) [
      | inl again ↦ rw (again, rounds) (rounds-depth q ps deadline key l' ∙ same)
      | inr (inl got) ↦ rw (got, rounds) same
      | inr (inr late) ↦ rw (late, rounds) same
    ]

restored :
    (key q : Key) (l m : Limiter)
    → queue_depth q m ≡ queue_depth q (increment_waiting key l)
    → queue_depth q (decrement_waiting key m) ≡ queue_depth q l
restored key q l m e =
    queue_depth-decrement key q m ∙ ground (arith, e, queue_depth-increment key q l)

finish-depth :
    (key q : Key) (l m : Limiter) (verdict : Verdict)
    → verdict ≢ waiting
    → queue_depth q m ≡ queue_depth q (increment_waiting key l)
    → queue_depth q (finish key (m, verdict)).0 ≡ queue_depth q l
unfolding finish
finish-depth key q l m acquired h e = restored key q l m e
finish-depth key q l m timed_out h e = restored key q l m e
finish-depth key q l m waiting h e = absurd (h refl)

finish-verdict :
    (key : Key) (m : Limiter) (verdict : Verdict) → (finish key (m, verdict)).1 ≡ verdict
unfolding finish
finish-verdict key m acquired = refl
finish-verdict key m timed_out = refl
finish-verdict key m waiting = refl

-- An `acquire` that ends, with a token or by its timeout, leaves every counter as it found it.
pub acquire-depth :
    (key q : Key) (ps : List Poll) (deadline : ℕ) (l : Limiter) {r : Limiter × Verdict}
    → acquire ps deadline key l ≡ ok r
    → r.1 ≢ waiting
    → queue_depth q r.0 ≡ queue_depth q l
unfolding acquire
acquire-depth key q ps deadline l {r} e ended =
    let (l', entered, done) = >>=-eq-ok (enter key l) _ e in
    let (joined, room) = enter-ok key l l' entered in
    let out = rounds ps deadline key l' in
    let same : finish key out ≡ r = cc in
    let kept = finish-verdict key out.0 out.1 in
    ap (λ x. queue_depth q x.0) (sym same)
    ∙ finish-depth key q l out.0 out.1 (λ w. ended (ap (λ x. x.1) (sym same) ∙ kept ∙ w))
        (rounds-depth q ps deadline key l' ∙ ap (queue_depth q) (sym joined))
