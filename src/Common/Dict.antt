-- ===== src/Common/Dict.antt =====
-- A Python dictionary as a list of entries in insertion order: an assignment to a key that is
-- there keeps the key's place, a new key goes to the end. Keys have a decidable equality.
use mathlib.Core.List.{List, [], ◌∷◌, ◌++◌}
use mathlib.Core.Path.{◌≡◌, refl, sym, ◌∙◌, ap, subst}
use mathlib.Core.Logic.{◌≢◌, ite, if_pos, if_neg}
use mathlib.Core.Option.{Option, none, some}
use Prim.Native.Nat.{suc}
use native.Mathlib.Omega.{arith}
use data_service.Common.Lists.{length, All}

module _ {ℓ} {K V : Type ℓ} (dec : Discrete K) where
  -- `d.get(k)`
  unfoldable pub get : K → List (K × V) → Option V
  get k [] = none
  get k ((j, v) ∷ d) = ite (dec j k) (some v) (get k d)

  -- `d[k] = v`
  unfoldable pub put : K → V → List (K × V) → List (K × V)
  put k v [] = (k, v) ∷ []
  put k v ((j, w) ∷ d) = ite (dec j k) ((k, v) ∷ d) ((j, w) ∷ put k v d)

  -- `d.pop(k, None)`
  unfoldable pub remove : K → List (K × V) → List (K × V)
  remove k [] = []
  remove k ((j, w) ∷ d) = ite (dec j k) d ((j, w) ∷ remove k d)

  -- No key stands twice.
  abbrev pub IsDistinct : List (K × V) → Type ℓ
  IsDistinct [] = Unit
  IsDistinct ((k, v) ∷ d) = (get k d ≡ none) × IsDistinct d

  pub get-put_self : (k : K) (v : V) (d : List (K × V)) → get k (put k v d) ≡ some v
  unfolding get put
  get-put_self k v [] = if_pos (dec k k) refl _ _
  get-put_self k v ((j, w) ∷ d) = ground (arith, get-put_self k v d)

  pub get-put_ne : (k q : K) (v : V) (d : List (K × V)) → k ≢ q → get q (put k v d) ≡ get q d
  unfolding get put
  get-put_ne k q v [] h = if_neg (dec k q) h _ _
  get-put_ne k q v ((j, w) ∷ d) h = ground (arith, get-put_ne k q v d)

  pub put-IsDistinct : (k : K) (v : V) (d : List (K × V)) → IsDistinct d → IsDistinct (put k v d)
  unfolding get put
  put-IsDistinct k v [] h = (refl, tt)
  put-IsDistinct k v ((j, w) ∷ d) h = ground (arith, put-IsDistinct k v d, get-put_ne k j v d)

  pub get-remove_ne : (k q : K) (d : List (K × V)) → k ≢ q → get q (remove k d) ≡ get q d
  unfolding get remove
  get-remove_ne k q [] h = refl
  get-remove_ne k q ((j, w) ∷ d) h = ground (arith, get-remove_ne k q d)

  pub get-remove_absent : (k q : K) (d : List (K × V)) → get q d ≡ none → get q (remove k d) ≡ none
  unfolding get remove
  get-remove_absent k q [] h = refl
  get-remove_absent k q ((j, w) ∷ d) h = ground (arith, get-remove_absent k q d)

  pub get-remove_self : (k : K) (d : List (K × V)) → IsDistinct d → get k (remove k d) ≡ none
  unfolding get remove
  get-remove_self k [] h = refl
  get-remove_self k ((j, w) ∷ d) h = ground (arith, get-remove_self k d)

  pub remove-IsDistinct : (k : K) (d : List (K × V)) → IsDistinct d → IsDistinct (remove k d)
  unfolding remove
  remove-IsDistinct k [] h = tt
  remove-IsDistinct k ((j, w) ∷ d) h =
      ground (arith, remove-IsDistinct k d, get-remove_absent k j d)

  pub remove_absent : (k : K) (d : List (K × V)) → get k d ≡ none → remove k d ≡ d
  unfolding get remove
  remove_absent k [] h = refl
  remove_absent k ((j, w) ∷ d) h = ground (arith, remove_absent k d)

  pub length-remove :
      (k : K) (d : List (K × V)) (v : V) → get k d ≡ some v → suc (length (remove k d)) ≡ length d
  unfolding get remove
  length-remove k [] v h = ground arith
  length-remove k ((j, w) ∷ d) v h = ground (arith, length-remove k d v)

  pub length-put_present :
      (k : K) (v w : V) (d : List (K × V)) → get k d ≡ some w → length (put k v d) ≡ length d
  unfolding get put
  length-put_present k v w [] h = ground arith
  length-put_present k v w ((j, u) ∷ d) h = ground (arith, length-put_present k v w d)

  pub put_absent :
      (k : K) (v : V) (d : List (K × V)) → get k d ≡ none → put k v d ≡ d ++ (k, v) ∷ []
  unfolding get put
  put_absent k v [] h = refl
  put_absent k v ((j, w) ∷ d) h = ground (arith, put_absent k v d)

  pub get-snoc_ne :
      (k q : K) (v : V) (d : List (K × V)) → k ≢ q → get q (d ++ (k, v) ∷ []) ≡ get q d
  unfolding get
  get-snoc_ne k q v [] h = if_neg (dec k q) h _ _
  get-snoc_ne k q v ((j, w) ∷ d) h = ground (arith, get-snoc_ne k q v d)

  pub get-snoc_self :
      (k : K) (v : V) (d : List (K × V)) → get k d ≡ none → get k (d ++ (k, v) ∷ []) ≡ some v
  unfolding get
  get-snoc_self k v [] h = if_pos (dec k k) refl _ _
  get-snoc_self k v ((j, w) ∷ d) h = ground (arith, get-snoc_self k v d)

  pub snoc-IsDistinct :
      (k : K) (v : V) (d : List (K × V))
      → get k d ≡ none
      → IsDistinct d
      → IsDistinct (d ++ (k, v) ∷ [])
  unfolding get
  snoc-IsDistinct k v [] h u = (refl, tt)
  snoc-IsDistinct k v ((j, w) ∷ d) h u = ground (arith, snoc-IsDistinct k v d, get-snoc_ne k j v d)

  pub length-snoc : (e : K × V) (d : List (K × V)) → length (d ++ e ∷ []) ≡ suc (length d)
  length-snoc e [] = refl
  length-snoc e (x ∷ d) = ap suc (length-snoc e d)

  -- A key that is missing is neither the first key nor in the rest.
  pub get-cons_absent :
      (k j : K) (w : V) (d : List (K × V)) → get k ((j, w) ∷ d) ≡ none → (k ≢ j) × (get k d ≡ none)
  unfolding get
  get-cons_absent k j w d h = (λ e. ground arith, ground arith)

  pub All-put :
      (P : K × V → Type 0) (k : K) (v : V) (d : List (K × V))
      → P (k, v)
      → All P d
      → All P (put k v d)
  unfolding put
  All-put P k v [] p h = (p, tt)
  All-put P k v ((j, w) ∷ d) p h =
      elim (dec j k) as (λ b. All P (ite b ((k, v) ∷ d) ((j, w) ∷ put k v d))) [
        | yes e ↦ (p, h.1)
        | no e ↦ (h.0, All-put P k v d p h.1)
      ]

  pub All-get :
      (P : K × V → Type 0) (k : K) (v : V) (d : List (K × V))
      → All P d
      → get k d ≡ some v
      → P (k, v)
  unfolding get
  All-get P k v [] h e = absurd (ground arith)
  All-get P k v ((j, w) ∷ d) h e = elim (dec j k) [
    | yes p ↦ let q : w ≡ v = ground arith in subst (λ x. P (x, v)) p (subst (λ y. P (j, y)) q h.0)
    | no n ↦ All-get P k v d h.1 (ground arith)
  ]

  -- A reading after an assignment.
  pub get-put :
      (k q : K) (v : V) (d : List (K × V)) → get q (put k v d) ≡ ite (dec k q) (some v) (get q d)
  get-put k q v d = elim (dec k q) [
    | yes e ↦
        subst (λ x. get x (put k v d) ≡ some v) e (get-put_self k v d)
        ∙ sym (if_pos (dec k q) e _ _)
    | no n ↦ get-put_ne k q v d n ∙ sym (if_neg (dec k q) n _ _)
  ]
