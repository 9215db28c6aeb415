-- ===== src/Quality/Gate/Bars.antt =====
-- Prices that make a bar, as the gate checks them.
use data_service.Common.{
  ok_inj, ◌≡◌, ◌⊎◌, refl, Bool, true, false, List, [], ◌∷◌, ◌++◌, All, arith, ok, err, Result,
  Bool-cases, inl, inr, String,
}
use data_service.Common.Value.{
  Numbers, PyError, Value, type_error, value_error, overflow_error, to_float, get_value, is_none,
  catching,
}
use data_service.Validators.Ohlcv.{max_float, min_float}
use data_service.Quality.Gate.{required_ohlcv_fields}
use data_service.Quality.Consistency.{
  Data, Failure, ohlcv_failures, volume_failures, price_failures, field_type_error, when,
}

pub append-eq-nil : {A : Type 0} (xs ys : List A) → (xs ++ ys) ≡ [] → (xs ≡ []) × (ys ≡ [])
append-eq-nil [] ys h = (refl, h)
append-eq-nil (x ∷ xs) ys h = cc

pub when-eq-nil : {A : Type 0} (b : Bool) (a : A) → when b a ≡ [] → b ≡ false
when-eq-nil true a h = cc
when-eq-nil false a h = refl

module _ (n : Numbers) where
  open n use {floats}

  abbrev pub Failures : Type 0
  Failures = List (Failure floats.Carrier)

  catching-eq-nil :
      (m : Result PyError floats.Carrier) (k : floats.Carrier → Result PyError Failures)
      (found : Failures) (f : Failure floats.Carrier)
      → catching m k (ok (found ++ f ∷ [])) ≡ ok []
      → (x : floats.Carrier) × (m ≡ ok x) × (k x ≡ ok [])
  catching-eq-nil (ok x) k found f h = (x, refl, h)
  catching-eq-nil (err type_error) k [] f h = cc
  catching-eq-nil (err type_error) k (x ∷ found) f h = cc
  catching-eq-nil (err value_error) k [] f h = cc
  catching-eq-nil (err value_error) k (x ∷ found) f h = cc
  catching-eq-nil (err overflow_error) k found f h = cc

  -- A volume that is there is a number and not negative.
  abbrev IsVolume : Value floats.Carrier → Type 0
  IsVolume v =
      (is_none v ≡ true)
      ⊎ ((x : floats.Carrier) × (to_float n v ≡ ok x) × (floats.lt x floats.origin ≡ false))

  -- No price is at or below 0; and if the opening price is a number above 0, then the high is not
  -- below it or the close, and the low not above them.
  pub record IsBar (o h l c : floats.Carrier) : Type 0 where
    pub open_positive : n.le o floats.origin ≡ false
    pub high_positive : n.le h floats.origin ≡ false
    pub low_positive : n.le l floats.origin ≡ false
    pub close_positive : n.le c floats.origin ≡ false
    pub bounded :
        (floats.lt floats.origin o ≡ false)
        ⊎ ((floats.lt h o ≡ false)
            × (floats.lt h c ≡ false)
            × (floats.lt o l ≡ false)
            × (floats.lt c l ≡ false))

  above_max :
      (a b h : floats.Carrier)
      → floats.lt h (max_float floats a b) ≡ false
      → floats.lt floats.origin a ≡ true
      → (floats.lt h a ≡ false) × (floats.lt h b ≡ false)
  unfolding max_float
  above_max a b h e k = elim (Bool-cases (floats.lt a b)) [
    | inl less ↦ ground (arith, floats.lt_trans h a b)
    | inr more ↦ ground (arith, floats.lt_cut h b a)
  ]

  below_min :
      (a b l : floats.Carrier)
      → floats.lt (min_float floats a b) l ≡ false
      → floats.lt floats.origin a ≡ true
      → (floats.lt a l ≡ false) × (floats.lt b l ≡ false)
  unfolding min_float
  below_min a b l e k = elim (Bool-cases (floats.lt b a)) [
    | inl less ↦ ground (arith, floats.lt_trans b a l)
    | inr more ↦ ground (arith, floats.lt_cut b l a)
  ]

  IsVolume-eq-nil :
      (found : Failures) (v : Value floats.Carrier)
      → volume_failures n found v ≡ ok []
      → (found ≡ []) × IsVolume v
  unfolding volume_failures
  IsVolume-eq-nil found v h = elim (Bool-cases (is_none v)) [
    | inl absent ↦ (ground arith, inl absent)
    | inr present ↦
        let (x, p, q) =
          catching-eq-nil (to_float n v) _ found (field_type_error v) (rw present at h) in
        let (f, w) = append-eq-nil found _ (ok_inj q) in (f, inr (x, p, when-eq-nil _ _ w))
  ]

  price_failures-eq-nil : (o h l c : floats.Carrier) → price_failures n o h l c ≡ [] → IsBar o h l c
  unfolding price_failures
  price_failures-eq-nil o h l c e =
      let (p, e1) = append-eq-nil (when _ _) _ e in
      let (q, e2) = append-eq-nil (when _ _) _ e1 in
      let (r, e3) = append-eq-nil (when _ _) _ e2 in
      let (s, e4) = append-eq-nil (when _ _) _ e3 in
      let (t, u) = append-eq-nil (when _ _) _ e4 in
      record {
        open_positive = when-eq-nil _ _ p;
        high_positive = when-eq-nil _ _ q;
        low_positive = when-eq-nil _ _ r;
        close_positive = when-eq-nil _ _ s;
        bounded = elim (Bool-cases (floats.lt floats.origin o)) [
          | inl number ↦
              let (ho, hc) = above_max o c h (when-eq-nil _ _ t) number in
              let (ol, cl) = below_min o c l (when-eq-nil _ _ u) number in inr (ho, hc, ol, cl)
          | inr other ↦ inl other
        ];
      }

  -- The four prices are numbers that make a bar, and the volume is sound.
  pub record IsPriced (d : Data n) (o h l c : floats.Carrier) : Type 0 where
    pub open_price : to_float n (get_value "open" d) ≡ ok o
    pub high : to_float n (get_value "high" d) ≡ ok h
    pub low : to_float n (get_value "low" d) ≡ ok l
    pub close : to_float n (get_value "close" d) ≡ ok c
    pub bar : IsBar o h l c
    pub volume : IsVolume (get_value "volume" d)

  abbrev pub HasAll : List String → Data n → Type 0
  HasAll ks d = All (λ k. is_none (get_value k d) ≡ false) ks

  pub ohlcv-eq-nil :
      (found : Failures) (d : Data n)
      → HasAll required_ohlcv_fields d
      → ohlcv_failures n found d ≡ ok []
      → (found ≡ []) × ((o h l c : floats.Carrier) × IsPriced d o h l c)
  unfolding ohlcv_failures
  ohlcv-eq-nil found d (_, (_, (po, (ph, (pl, (pc, _)))))) e =
      let e0 = rw (po, ph, pl, pc) at e in
      let o = get_value "open" d in
      let h = get_value "high" d in
      let l = get_value "low" d in
      let c = get_value "close" d in
      let (x, p, e1) = catching-eq-nil (to_float n o) _ found (field_type_error o) e0 in
      let (y, q, e2) = catching-eq-nil (to_float n h) _ found (field_type_error h) e1 in
      let (z, r, e3) = catching-eq-nil (to_float n l) _ found (field_type_error l) e2 in
      let (w, s, e4) = catching-eq-nil (to_float n c) _ found (field_type_error c) e3 in
      let (both, v) =
        IsVolume-eq-nil (found ++ price_failures n x y z w) (get_value "volume" d) e4 in
      let (f, prices) = append-eq-nil found (price_failures n x y z w) both in
      (
        f,
        (
          x,
          y,
          z,
          w,
          record {
            open_price = p;
            high = q;
            low = r;
            close = s;
            bar = price_failures-eq-nil x y z w prices;
            volume = v;
          },
        ),
      )
