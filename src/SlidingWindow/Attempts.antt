-- ===== src/SlidingWindow/Attempts.antt =====
-- Runs of requests against the sliding-window limiter, with its default limit and window.
use data_service.Common.{
  ℕ, suc, ◌+◌, ◌≤◌, String, none, List, [], ◌∷◌, leb, ltb, ◌&&◌, String_discrete, ite,
  if◌then◌else◌,
}
use data_service.SlidingWindow.{Limiter, is_allowed}

-- A request of a consumer, at its reading of the clock.
pub record Attempt : Type 0 where
  pub now : ℕ
  pub consumer : String

-- The times at which the requests of one consumer were granted.
unfoldable pub granted : String → List Attempt → Limiter → List ℕ
granted q [] l = []
granted q (a ∷ rest) l =
    let (l', allowed) = is_allowed a.now a.consumer none none l in
    let later = granted q rest l' in
    ite (String_discrete a.consumer q) (if allowed then a.now ∷ later else later) later

-- How many of the times lie in the window of the given span that ends at `at`.
unfoldable pub count_within : ℕ → ℕ → List ℕ → ℕ
count_within at span [] = 0
count_within at span (t ∷ ts) =
    let rest = count_within at span ts in if leb t at && ltb at (t + span) then suc rest else rest

-- The clock does not go back.
abbrev pub IsMonotone : ℕ → List Attempt → Type 0
IsMonotone before [] = Unit
IsMonotone before (a ∷ rest) = (before ≤ a.now) × IsMonotone a.now rest
