-- ===== src/Validators/Semantic/Zeros.antt =====
-- No zero is left that no provider sent.
use data_service.Common.{
  ok_inj, ◌≡◌, ◌≢◌, ◌⊎◌, inl, inr, refl, ap, subst, String, Bool, true, false, not, ◌&&◌, List, [],
  ◌∷◌, ◌++◌, if◌then◌else◌, String_discrete, ok, >>=-eq-ok, str_eq, eq_iff, arith, Bool-cases, All,
  All-append, All-map,
}
use data_service.Common.Dict
use data_service.Common.Value.{
  Numbers, Value, none_value, flag, whole, real, text, composite, is_none, get_value, truth,
}
use data_service.Validators.Semantic.{
  Record, set, is_zero, is_placeholder, explicit_key, clear_placeholders, greek_fields,
  quote_fields, validate_oi_not_from_traded_value, validate_iv_not_zero_substituted,
  validate_greeks_not_zero_substituted, validate_bid_ask_not_zero_substituted,
  run_semantic_validation, Outcome, mark_missing,
}

texts_ne : (a b : String) → str_eq a b ≡ false → a ≢ b
texts_ne a b h e = let same = (eq_iff a b).1 e in cc

-- No field of the group is the flag of a field of the group.
abbrev HasNoFlag : List String → List String → Type 0
HasNoFlag fs ks = All (λ k. All (λ f. f ≢ explicit_key k) fs) ks

differs : List String → String → Bool
differs [] k = true
differs (f ∷ fs) k = not (str_eq f (explicit_key k)) && differs fs k

differ : List String → List String → Bool
differ fs [] = true
differ fs (k ∷ ks) = differs fs k && differ fs ks

no_flag_of :
    (fs : List String) (k : String) → differs fs k ≡ true → All (λ f. f ≢ explicit_key k) fs
unfolding differs
no_flag_of [] k h = tt
no_flag_of (f ∷ fs) k h = elim (Bool-cases (str_eq f (explicit_key k))) [
  | inl e ↦ absurd (ground arith)
  | inr e ↦ (texts_ne f (explicit_key k) e, no_flag_of fs k (ground arith))
]

no_flag : (fs ks : List String) → differ fs ks ≡ true → HasNoFlag fs ks
unfolding differ
no_flag fs [] h = tt
no_flag fs (k ∷ ks) h = (no_flag_of fs k (ground arith), no_flag fs ks (ground arith))

module _ (n : Numbers) where
  open n use {floats}

  get_value-put_ne :
      (j k : String) (v : Value floats.Carrier) (r : Record n)
      → j ≢ k
      → get_value k (set n j v r) ≡ get_value k r
  unfolding get_value
  get_value-put_ne j k v r h = rw (Dict.get-put_ne String_discrete j k v r h, get_value) refl

  get_value-put_self :
      (k : String) (v : Value floats.Carrier) (r : Record n) → get_value k (set n k v r) ≡ v
  unfolding get_value
  get_value-put_self k v r = rw (Dict.get-put_self String_discrete k v r, get_value) refl

  -- A field holds no zero, or the provider said that it sent it.
  abbrev pub IsGenuine : Record n → String → Type 0
  IsGenuine r k =
      (is_zero n (get_value k r) ≡ false) ⊎ (truth n (get_value (explicit_key k) r) ≡ true)

  genuine : (k : String) (r : Record n) → is_placeholder n k r ≡ false → IsGenuine r k
  unfolding is_placeholder
  genuine k r h = elim (Bool-cases (truth n (get_value (explicit_key k) r))) [
    | inl e ↦ inr e
    | inr e ↦ inl (ground arith)
  ]

  none-IsGenuine : (k : String) (r : Record n) → IsGenuine (set n k none_value r) k
  unfolding is_zero
  none-IsGenuine k r = inl (rw (get_value-put_self k none_value r) refl)

  -- A change to another field than the flag of `k` keeps `k` genuine, unless it writes `k` itself.
  set-IsGenuine :
      (j k : String) (v : Value floats.Carrier) (r : Record n)
      → j ≢ explicit_key k
      → j ≢ k
      → IsGenuine r k
      → IsGenuine (set n j v r) k
  set-IsGenuine j k v r p q (inl h) = inl (rw (get_value-put_ne j k v r q) h)
  set-IsGenuine j k v r p q (inr h) = inr (rw (get_value-put_ne j (explicit_key k) v r p) h)

  clear-IsGenuine :
      (f k : String) (r : Record n)
      → f ≢ explicit_key k
      → IsGenuine r k
      → IsGenuine (set n f none_value r) k
  clear-IsGenuine f k r p h = elim (String_discrete f k) [
    | yes e ↦ subst (λ x. IsGenuine (set n f none_value r) x) e (none-IsGenuine f r)
    | no e ↦ set-IsGenuine f k none_value r p e h
  ]

  -- The record after one field of a loop.
  abbrev cleared : String → Record n → Record n
  cleared f r = if is_placeholder n f r then set n f none_value r else r

  cleared-keeps :
      (f k : String) (r : Record n) → f ≢ explicit_key k → IsGenuine r k → IsGenuine (cleared f r) k
  cleared-keeps f k r p h = elim (Bool-cases (is_placeholder n f r)) [
    | inl e ↦ rw e (clear-IsGenuine f k r p h)
    | inr e ↦ rw e h
  ]

  cleared-makes : (f : String) (r : Record n) → IsGenuine (cleared f r) f
  cleared-makes f r = elim (Bool-cases (is_placeholder n f r)) [
    | inl e ↦ rw e (none-IsGenuine f r)
    | inr e ↦ rw e (genuine f r e)
  ]

  clear_placeholders-keeps :
      (fs : List String) (k : String) (r : Record n)
      → All (λ f. f ≢ explicit_key k) fs
      → IsGenuine r k
      → IsGenuine (clear_placeholders n fs r).0 k
  unfolding clear_placeholders
  clear_placeholders-keeps [] k r p h = h
  clear_placeholders-keeps (f ∷ fs) k r p h =
      clear_placeholders-keeps fs k (cleared f r) p.1 (cleared-keeps f k r p.0 h)

  clear_placeholders-makes :
      (fs ks : List String) (r : Record n)
      → HasNoFlag fs ks
      → All (IsGenuine r) ks
      → All (IsGenuine (clear_placeholders n fs r).0) ks
  clear_placeholders-makes fs [] r p h = tt
  clear_placeholders-makes fs (k ∷ ks) r p h =
      (clear_placeholders-keeps fs k r p.0 h.0, clear_placeholders-makes fs ks r p.1 h.1)

  clear_placeholders-all :
      (fs : List String) (r : Record n)
      → HasNoFlag fs fs
      → All (IsGenuine (clear_placeholders n fs r).0) fs
  unfolding clear_placeholders
  clear_placeholders-all [] r p = tt
  clear_placeholders-all (f ∷ fs) r p = (
    clear_placeholders-keeps fs f (cleared f r) p.0.1 (cleared-makes f r),
    clear_placeholders-all fs (cleared f r) (All-map _ _ fs (λ k h. h.1) p.1),
  )

  marked : (r : Record n) → IsGenuine r "iv" → IsGenuine (set n "ivMissing" (flag true) r) "iv"
  marked r h =
      set-IsGenuine "ivMissing" "iv" (flag true) r (texts_ne "ivMissing" (explicit_key "iv") refl)
        (texts_ne "ivMissing" "iv" refl) h

  none_not_zero : (v : Value floats.Carrier) → is_none v ≡ true → is_zero n v ≡ false
  unfolding is_zero
  none_not_zero none_value h = refl
  none_not_zero (flag b) h = cc
  none_not_zero (whole z) h = cc
  none_not_zero (real x) h = cc
  none_not_zero (text s) h = cc
  none_not_zero (composite b) h = cc

  mark_missing-IsGenuine :
      (r : Record n) → IsGenuine r "iv" → IsGenuine (mark_missing n "ivMissing" r) "iv"
  unfolding mark_missing
  mark_missing-IsGenuine r h = elim (Bool-cases (truth n (get_value "ivMissing" r))) [
    | inl e ↦ rw e h
    | inr e ↦ rw e (marked r h)
  ]

  iv-IsGenuine : (r : Record n) → IsGenuine (validate_iv_not_zero_substituted n r).0 "iv"
  unfolding validate_iv_not_zero_substituted
  iv-IsGenuine r = elim (Bool-cases (is_none (get_value "iv" r))) [
    | inl absent ↦
        rw absent (mark_missing-IsGenuine r (inl (none_not_zero (get_value "iv" r) absent)))
    | inr present ↦ elim (Bool-cases (is_placeholder n "iv" r)) [
      | inl e ↦ rw (present, e) (marked (set n "iv" none_value r) (none-IsGenuine "iv" r))
      | inr e ↦ rw (present, e) (genuine "iv" r e)
    ]
  ]

  -- After the semantic checks no implied volatility, Greek, bid or ask is 0 unless its provider said
  -- that it sent it.
  pub run_semantic_validation-IsGenuine :
      (r : Record n) (provider : String) (o : Outcome n)
      → run_semantic_validation n r provider ≡ ok o
      → All (IsGenuine o.corrected) ("iv" ∷ (greek_fields ++ quote_fields))
  unfolding differ differs run_semantic_validation validate_greeks_not_zero_substituted
      validate_bid_ask_not_zero_substituted
  run_semantic_validation-IsGenuine r provider o h =
      let ((r1, a), p, done) = >>=-eq-ok (validate_oi_not_from_traded_value n r) _ h in
      let r2 = (validate_iv_not_zero_substituted n r1).0 in
      let r3 = (clear_placeholders n greek_fields r2).0 in
      let r4 = (clear_placeholders n quote_fields r3).0 in
      let early =
        clear_placeholders-makes greek_fields ("iv" ∷ []) r2 (no_flag greek_fields ("iv" ∷ []) refl)
          (iv-IsGenuine r1, tt) in
      let greeks : All (IsGenuine r3) ("iv" ∷ greek_fields) = (
        early.0,
        clear_placeholders-all greek_fields r2 (no_flag greek_fields greek_fields refl),
      ) in
      let kept =
        clear_placeholders-makes quote_fields ("iv" ∷ greek_fields) r3
          (no_flag quote_fields ("iv" ∷ greek_fields) refl) greeks in
      let quotes =
        clear_placeholders-all quote_fields r3 (no_flag quote_fields quote_fields refl) in
      let same : r4 ≡ o.corrected = ap (λ (x : Outcome n). x.corrected) (ok_inj done) in
      subst (λ x. All (IsGenuine x) ("iv" ∷ (greek_fields ++ quote_fields))) same
        (All-append (IsGenuine r4) ("iv" ∷ greek_fields) quote_fields kept quotes)
