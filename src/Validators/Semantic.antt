-- ===== src/Validators/Semantic.antt =====
-- src/core/validators/semantic.py: values that a provider left out and something filled in with a
-- zero, or with another field's value, are set to null. A record is a dictionary that the checks
-- change; an incident's identifier and time are left out, as are the texts of reasons.
pub mod Zeros
use Prim.Native.String.{◌++◌ as append}
use data_service.Common.{
  ℕ, ◌+◌, String, Bool, true, false, not, ◌&&◌, ◌||◌, Option, none, some, List, [], ◌∷◌,
  if◌then◌else◌, String_discrete, Result, ok, err, ◌>>=◌, is_empty, str_eq, ◌++◌, ◌==◌,
}
use data_service.Common.Dict
use data_service.Common.Int.{ℤ, pos, pos_part, neg_part}
use data_service.Common.Value.{
  Numbers, PyError, Value, none_value, flag, whole, real, text, composite, is_none, get_value,
  to_float, truth,
}
use data_service.Validators.Ohlcv.{max_float}

-- The four checks, by the names of their incidents.
pub data Correction : Type 0 where
  oi_traded_value iv_zero greeks_zero bid_ask_zero : Correction

pub record SemanticIncident : Type 0 where
  pub instrument_id : Option String
  pub provider : String
  pub corrections : List Correction

abbrev pub greek_fields : List String
greek_fields = "delta" ∷ "gamma" ∷ "theta" ∷ "vega" ∷ "rho" ∷ []

abbrev pub quote_fields : List String
quote_fields = "bid" ∷ "ask" ∷ []

abbrev pub explicit_key : String → String
explicit_key field = append field "_explicitly_provided"

module _ (n : Numbers) where
  open n use {floats}

  abbrev pub Record : Type 0
  Record = List (String × Value floats.Carrier)

  abbrev pub set : String → Value floats.Carrier → Record → Record
  set k v r = Dict.put String_discrete k v r

  -- `_is_zero`: a Boolean is a number in Python.
  unfoldable pub is_zero : Value floats.Carrier → Bool
  is_zero (flag b) = not b
  is_zero (whole z) = pos_part z + neg_part z == 0
  is_zero (real x) = not (n.is_nonzero x)
  is_zero v = false

  is_number : Value floats.Carrier → Bool
  is_number (flag b) = true
  is_number (whole z) = true
  is_number (real x) = true
  is_number v = false

  float_eq : floats.Carrier → floats.Carrier → Bool
  float_eq a b = n.le a b && n.le b a

  -- 1 / 1000000000 is the float nearest to 1e-9.
  nearly_equal : floats.Carrier → floats.Carrier → Bool
  unfolding float_eq max_float
  nearly_equal a b =
      if float_eq a b
      then true
      else let most = max_float floats (n.abs a) (n.abs b) in
        if not (n.is_nonzero most)
        then true
        else floats.lt (n.div (n.abs (n.sub a b)) most) (n.div (n.of_ℕ 1) (n.of_ℕ 1000000000))

  -- `_numeric_equal`: a whole number can be too large for `float`.
  unfoldable pub numeric_equal : Value floats.Carrier → Value floats.Carrier → Result PyError Bool
  unfolding is_number nearly_equal
  numeric_equal a b =
      if is_number a && is_number b
      then (do x ← to_float n a; y ← to_float n b; ok (nearly_equal x y))
      else ok false

  -- A check comes back with the record and whether it corrected something.
  abbrev pub Checked : Type 0
  Checked = Record × Bool

  pub mark_missing : String → Record → Record
  mark_missing key r = if truth n (get_value key r) then r else set key (flag true) r

  unfoldable pub validate_oi_not_from_traded_value : Record → Result PyError Checked
  unfolding mark_missing numeric_equal
  validate_oi_not_from_traded_value r =
      let oi = get_value "oi" r in
      let traded = get_value "tradedValue" r in
      if is_none oi
      then ok (mark_missing "oiMissing" r, false)
      else if truth n (get_value "oi_explicitly_provided" r) || is_none traded
      then ok (r, false)
      else do
        same ← numeric_equal oi traded
        ok (
            if same
            then (set "oiMissing" (flag true) (set "oi" none_value r), true)
            else (r, false))

  -- Whether a field holds a zero that no provider sent.
  unfoldable pub is_placeholder : String → Record → Bool
  unfolding is_zero
  is_placeholder field r =
      not (truth n (get_value (explicit_key field) r)) && is_zero (get_value field r)

  unfoldable pub validate_iv_not_zero_substituted : Record → Checked
  unfolding mark_missing is_placeholder
  validate_iv_not_zero_substituted r =
      if is_none (get_value "iv" r)
      then (mark_missing "ivMissing" r, false)
      else if is_placeholder "iv" r
      then (set "ivMissing" (flag true) (set "iv" none_value r), true)
      else (r, false)

  -- The loop over the fields of one group. A missing value is no zero.
  unfoldable pub clear_placeholders : List String → Record → Checked
  unfolding is_placeholder
  clear_placeholders [] r = (r, false)
  clear_placeholders (field ∷ fields) r =
      let found = is_placeholder field r in
      let (r', more) = clear_placeholders fields (if found then set field none_value r else r) in
      (r', found || more)

  unfoldable pub validate_greeks_not_zero_substituted : Record → Checked
  unfolding clear_placeholders
  validate_greeks_not_zero_substituted r = clear_placeholders greek_fields r

  unfoldable pub validate_bid_ask_not_zero_substituted : Record → Checked
  unfolding clear_placeholders
  validate_bid_ask_not_zero_substituted r = clear_placeholders quote_fields r

  noted : Correction → Bool → List Correction
  noted c corrected = if corrected then c ∷ [] else []

  pub record Outcome : Type 0 where
    pub corrected : Record
    pub incident : Option SemanticIncident

  text_of : Value floats.Carrier → Option String
  text_of (text s) = some s
  text_of v = none

  incident_of : String → Value floats.Carrier → List Correction → Option SemanticIncident
  unfolding text_of
  incident_of provider instrument [] = none
  incident_of provider instrument (c ∷ cs) =
      some
        (record { instrument_id = text_of instrument; provider = provider; corrections = c ∷ cs })

  -- `run_semantic_validation`: the incident is put into the record under `_semanticIncident`, and the
  -- record is always accepted.
  unfoldable pub run_semantic_validation : Record → String → Result PyError Outcome
  unfolding noted incident_of validate_oi_not_from_traded_value validate_iv_not_zero_substituted
      validate_greeks_not_zero_substituted validate_bid_ask_not_zero_substituted
  run_semantic_validation r provider = do
    (r1, a) ← validate_oi_not_from_traded_value r
    let (r2, b) = validate_iv_not_zero_substituted r1
    let (r3, c) = validate_greeks_not_zero_substituted r2
    let (r4, d) = validate_bid_ask_not_zero_substituted r3
    ok (record {
      corrected = r4;
      incident = incident_of provider (get_value "instrumentId" r) (
          noted oi_traded_value a
          ++ (noted iv_zero b ++ (noted greeks_zero c ++ noted bid_ask_zero d)));
    })
