-- ===== src/Backtest/LookAhead.antt =====
-- The filters admit nothing from the future, and drop nothing that was there.
use data_service.Common.{
  ok_inj, ◌≡◌, refl, subst, Bool, true, false, not, List, [], ◌∷◌, arith, ok, err, Result, ◌>>=◌,
  >>=-eq-ok, if◌then◌else◌, Bool-cases, inl, inr, String,
}
use data_service.Common.Int.{ℤ, pos, negsuc, ltb_ℤ, ◌+ℤ◌, ◌≤ℤ◌, +ℤ_parts}
use data_service.Common.Value.{
  Numbers, PyError, Value, is_none, get_value, to_int, type_error, value_error, overflow_error,
}
use data_service.Backtest.{
  Record, filter, filter_by_available_at, filter_on, has_passed, is_look_ahead, is_after,
}

module _ (n : Numbers) where
  open n use {floats}

  -- The field holds a time at or before the boundary, the offset added.
  abbrev pub WasThere : String → ℤ → ℤ → Record n → Type 0
  WasThere key offset as_of r =
      (ts : ℤ) × (is_none (get_value key r) ≡ false)
      × (to_int n (get_value key r) ≡ ok ts)
      × (ts +ℤ offset ≤ℤ as_of)

  -- The second list is what is left of the first when just the records that were there are kept, in
  -- their order.
  pub data IsFiltered (key : String) (offset as_of : ℤ)
      : List (Record n) → List (Record n) → Type 0 where
    done : IsFiltered key offset as_of [] []
    keep :
        {r : Record n} {rs out : List (Record n)}
        → WasThere key offset as_of r
        → IsFiltered key offset as_of rs out
        → IsFiltered key offset as_of (r ∷ rs) (r ∷ out)
    drop :
        {r : Record n} {rs out : List (Record n)}
        → (WasThere key offset as_of r → ⊥)
        → IsFiltered key offset as_of rs out
        → IsFiltered key offset as_of (r ∷ rs) out

  passed_cases :
      (v : Value floats.Carrier) (offset as_of : ℤ) (m : Result PyError ℤ)
      → to_int n v ≡ m
      → has_passed n v offset as_of ≡ ok true
      → (ts : ℤ) × (is_none v ≡ false) × (to_int n v ≡ ok ts) × (ts +ℤ offset ≤ℤ as_of)
  unfolding has_passed
  passed_cases v offset as_of (ok ts) e h = (ts, ground arith, e, ground arith)
  passed_cases v offset as_of (err type_error) e h = absurd (ground arith)
  passed_cases v offset as_of (err value_error) e h = absurd (ground arith)
  passed_cases v offset as_of (err overflow_error) e h = absurd (ground arith)

  kept_out :
      (v : Value floats.Carrier) (offset as_of ts : ℤ)
      → has_passed n v offset as_of ≡ ok false
      → is_none v ≡ false
      → to_int n v ≡ ok ts
      → ts +ℤ offset ≤ℤ as_of
      → ⊥
  unfolding has_passed
  kept_out v offset as_of ts h p q r = ground arith

  not_branch :
      (r : Record n) (look : Bool)
      → ◌≡◌ {A = Result PyError (List (Record n))}
          (ok (if not look then r ∷ [] else []))
          (ok (if look then [] else r ∷ []))
  not_branch r true = refl
  not_branch r false = refl

  extend :
      (key : String) (offset as_of : ℤ) (r : Record n) (rs rest : List (Record n)) (kept : Bool)
      → has_passed n (get_value key r) offset as_of ≡ ok kept
      → IsFiltered key offset as_of rs rest
      → IsFiltered key offset as_of (r ∷ rs) (if kept then r ∷ rest else rest)
  extend key offset as_of r rs rest true p ih =
      keep (passed_cases (get_value key r) offset as_of (to_int n (get_value key r)) refl p) ih
  extend key offset as_of r rs rest false p ih =
      drop
        (λ (ts, there, converted, le).
          kept_out (get_value key r) offset as_of ts p there converted le)
        ih

  filter_on-IsFiltered :
      (key : String) (offset as_of : ℤ) (rs out : List (Record n))
      → filter_on n key offset as_of rs ≡ ok out
      → IsFiltered key offset as_of rs out
  unfolding filter_on
  filter_on-IsFiltered key offset as_of [] out h =
      subst (λ o. IsFiltered key offset as_of [] o) (ok_inj h) done
  filter_on-IsFiltered key offset as_of (r ∷ rs) out h =
      let test = has_passed n (get_value key r) offset as_of in
      let tail : Bool → Result PyError (List (Record n)) =
        λ kept. filter_on n key offset as_of rs >>= λ rest. ok (if kept then r ∷ rest else rest) in
      let (kept, p, h1) = >>=-eq-ok test tail h in
      let (rest, q, h2) =
        >>=-eq-ok (filter_on n key offset as_of rs) (λ rest. ok (if kept then r ∷ rest else rest))
          h1 in
      let ih = filter_on-IsFiltered key offset as_of rs rest q in
      subst (λ o. IsFiltered key offset as_of (r ∷ rs) o) (ok_inj h2)
        (extend key offset as_of r rs rest kept p ih)

  -- Both filters, if they come back, keep, in their order, exactly the records whose time is a whole number
  -- that has passed at the boundary: `availableAtMs` for the strict filter, `time` with the allowance
  -- added for the other, which refuses a negative allowance. So no record from the future is let
  -- through, and none that was there is lost.
  pub filter-IsFiltered :
      (records strict plain : List (Record n)) (as_of offset : ℤ)
      → filter_by_available_at n records as_of ≡ ok strict
      → filter n records as_of offset ≡ ok plain
      → IsFiltered "availableAtMs" (pos 0) as_of records strict
        × (pos 0 ≤ℤ offset)
        × IsFiltered "time" offset as_of records plain
  unfolding filter filter_by_available_at
  filter-IsFiltered records strict plain as_of offset h k =
      let kept = filter_on-IsFiltered "availableAtMs" (pos 0) as_of records strict h in
      elim (Bool-cases (ltb_ℤ offset (pos 0))) [
        | inl negative ↦ absurd (ground arith)
        | inr enough ↦ (
          kept,
          ground arith,
          filter_on-IsFiltered "time" offset as_of records plain (rw enough at k),
        )
      ]

  look_ahead_cases :
      (r : Record n) (as_of : ℤ) (m : Result PyError ℤ) (look : Bool)
      → to_int n (get_value "availableAtMs" r) ≡ m
      → is_none (get_value "availableAtMs" r) ≡ false
      → is_after n (get_value "availableAtMs" r) as_of ≡ ok look
      → has_passed n (get_value "availableAtMs" r) (pos 0) as_of ≡ ok (not look)
  unfolding has_passed is_after
  look_ahead_cases r as_of (ok (pos k)) look e p h = ground (arith, +ℤ_parts (pos k) (pos 0))
  look_ahead_cases r as_of (ok (negsuc k)) look e p h = ground (arith, +ℤ_parts (negsuc k) (pos 0))
  look_ahead_cases r as_of (err type_error) look e p h = ground arith
  look_ahead_cases r as_of (err value_error) look e p h = ground arith
  look_ahead_cases r as_of (err overflow_error) look e p h = ground arith

  -- For a record with a value in `availableAtMs`, the check of a single record agrees with the strict
  -- filter: the filter drops it exactly if the check calls it a look-ahead.
  pub is_look_ahead-filter :
      (r : Record n) (as_of : ℤ) (look : Bool)
      → is_none (get_value "availableAtMs" r) ≡ false
      → is_look_ahead n r as_of ≡ ok look
      → filter_by_available_at n (r ∷ []) as_of ≡ ok (if look then [] else r ∷ [])
  unfolding is_look_ahead filter_by_available_at filter_on
  is_look_ahead-filter r as_of look p h =
      let e =
        look_ahead_cases r as_of (to_int n (get_value "availableAtMs" r)) look refl p (rw p at h) in
      rw e (not_branch r look)
