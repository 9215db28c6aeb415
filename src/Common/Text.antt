-- ===== src/Common/Text.antt =====
-- Decidable equality of texts, for dictionaries whose keys are texts.
use Prim.Native.String.{String}
use mathlib.Core.Path.{◌≡◌, refl, ap}
use mathlib.Core.Logic.{◌↔◌}
use mathlib.Core.Bool.{Bool, true, false}
use text.Mathlib.Text.{◌==◌}
use text.Mathlib.TextEquality.{eq_iff}

dec_of_iff {ℓ} : {A : Type ℓ} (b : Bool) → (b ≡ true) ↔ A → Dec A
dec_of_iff true e = yes (e.0 refl)
dec_of_iff false e = no (λ a. cc (e.1 a))

unfoldable pub String_discrete : Discrete String
unfolding dec_of_iff
String_discrete s t = dec_of_iff (s == t) (eq_iff s t)

-- Keys that are pairs.
unfoldable pub Pair_discrete {ℓ} : {A B : Type ℓ} → Discrete A → Discrete B → Discrete (A × B)
Pair_discrete left right p q = elim (left p.0 q.0) [
  | yes e ↦ elim (right p.1 q.1) [
    | yes e' ↦ yes (λ i. (e i, e' i))
    | no n ↦ no (λ h. n (ap (λ x. x.1) h))
  ]
  | no n ↦ no (λ h. n (ap (λ x. x.0) h))
]
