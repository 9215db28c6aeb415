-- ===== src/SlidingWindow/Alone.antt =====
-- Consumers do not disturb each other.
use data_service.Common.{
  ℕ, ◌≡◌, refl, sym, ◌∙◌, String, none, List, [], ◌∷◌, String_discrete, ite, if_pos, if_neg,
}
use data_service.SlidingWindow.{Limiter, window_of, prune, decide, is_allowed}
use data_service.SlidingWindow.Windows.{
  is_allowed-own, is_allowed-other, is_allowed-answer, is_allowed-defaults,
}
use data_service.SlidingWindow.Attempts.{Attempt, granted}

-- The requests of one consumer.
abbrev pub own_attempts : String → List Attempt → List Attempt
own_attempts q [] = []
own_attempts q (a ∷ rest) =
    ite (String_discrete a.consumer q) (a ∷ own_attempts q rest) (own_attempts q rest)

is_allowed-agree :
    (now : ℕ) (c q : String) (l k : Limiter)
    → c ≡ q
    → l.default_limit ≡ k.default_limit
    → l.default_window_sec ≡ k.default_window_sec
    → window_of q l ≡ window_of q k
    → let (l', allowed) = is_allowed now c none none l in
      let (k', allowed') = is_allowed now c none none k in
      (allowed ≡ allowed') × (window_of q l' ≡ window_of q k')
unfolding decide prune window_of
is_allowed-agree now c q l k e el es ew =
    rw
      (
        e,
        is_allowed-own now q l,
        is_allowed-answer now q l,
        is_allowed-own now q k,
        is_allowed-answer now q k,
        el,
        es,
        ew,
      )
      (refl, refl)

granted-agree :
    (q : String) (attempts : List Attempt) (l k : Limiter)
    → l.default_limit ≡ k.default_limit
    → l.default_window_sec ≡ k.default_window_sec
    → window_of q l ≡ window_of q k
    → granted q attempts l ≡ granted q (own_attempts q attempts) k
unfolding granted
granted-agree q [] l k el es ew = refl
granted-agree q (a ∷ rest) l k el es ew =
    let l' = (is_allowed a.now a.consumer none none l).0 in
    let k' = (is_allowed a.now a.consumer none none k).0 in
    let (dl, ds) = is_allowed-defaults a.now a.consumer l in
    let (dl', ds') = is_allowed-defaults a.now a.consumer k in
    elim (String_discrete a.consumer q) [
      | yes e ↦
          let (same, windows) = is_allowed-agree a.now a.consumer q l k e el es ew in
          let ih = granted-agree q rest l' k' (dl ∙ el ∙ sym dl') (ds ∙ es ∙ sym ds') windows in
          rw (
            if_pos (String_discrete a.consumer q) e,
            if_pos (String_discrete a.consumer q) e,
            if_pos (String_discrete a.consumer q) e,
            same,
            ih,
          )
      | no n ↦
          rw (if_neg (String_discrete a.consumer q) n, if_neg (String_discrete a.consumer q) n)
            (granted-agree q rest l' k (dl ∙ el) (ds ∙ es)
              (is_allowed-other a.now a.consumer q l n ∙ ew))
    ]

-- A consumer is granted the same requests as if it were alone.
pub granted-alone :
    (q : String) (attempts : List Attempt) (l : Limiter)
    → granted q attempts l ≡ granted q (own_attempts q attempts) l
granted-alone q attempts l = granted-agree q attempts l l refl refl refl
