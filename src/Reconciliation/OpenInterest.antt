-- ===== src/Reconciliation/OpenInterest.antt =====
-- src/engines/reconciliation_engine.py: `reconcile_oi` and `reconcile_greeks`. Names, intervals and
-- candle times are passed through by the source and left out. `round(x, 4)` is a parameter. Open
-- interests are below 2 ^ 53, so that their quotient is that of floats.
pub mod Supplied
use data_service.Common.{
  ℕ, max, ◌+◌, String, Bool, true, false, not, ◌&&◌, ◌||◌, Option, none, some, List, [], ◌∷◌, ◌++◌,
  leb, if◌then◌else◌, ◌==◌,
}
use data_service.Common.Int.{ℤ, pos, pos_part, neg_part}
use data_service.Common.Value.{Numbers}
use data_service.Common.Case.{codes, upper}
use data_service.Reconciliation.{abs_diff}
use data_service.Quality.Consistency.{when}

pub data OiStatus : Type 0 where
  null_unavailable single_provider confirmed minor_discrepancy major_discrepancy : OiStatus

-- Which of the two providers.
pub data Side : Type 0 where
  provider_a provider_b : Side

pub data Note : Type 0 where
  blocked_note unavailable_note : Side → String → Note
  deviation_note : Note

pub record OiResult (A : Type 0) : Type 0 where
  pub canonical_oi : Option ℤ
  pub canonical_provider : Option Side
  pub oi_deviation_pct : Option A
  pub oi_status : OiStatus
  pub notes : List Note

is_prefix : List ℕ → List ℕ → Bool
is_prefix [] ys = true
is_prefix (x ∷ xs) [] = false
is_prefix (x ∷ xs) (y ∷ ys) = x == y && is_prefix xs ys

contains : List ℕ → List ℕ → Bool
unfolding is_prefix
contains word [] = is_prefix word []
contains word (y ∷ ys) = is_prefix word (y ∷ ys) || contains word ys

-- `"BLOCKED" in status.upper()`
unfoldable pub is_blocked : String → Bool
unfolding contains
is_blocked status = contains (codes "BLOCKED") (upper status)

pub is_zero : ℤ → Bool
is_zero z = pos_part z + neg_part z == 0

module _ (n : Numbers) (round4 : n.floats.Carrier → n.floats.Carrier) where
  open n use {floats}

  single : Side → Side → String → ℤ → OiResult floats.Carrier
  single winner loser status oi = record {
    canonical_oi = some oi;
    canonical_provider = some winner;
    oi_deviation_pct = none;
    oi_status = single_provider;
    notes = unavailable_note loser status ∷ [];
  }

  -- `round(abs(a - b) / max(abs(a), abs(b)) * 100.0, 4)`
  pub deviation : ℤ → ℤ → floats.Carrier
  deviation a b =
      let denom = max (pos_part a + neg_part a) (pos_part b + neg_part b) in
      round4 (n.mul (n.div (n.of_ℕ (abs_diff a b)) (n.of_ℕ denom)) (n.of_ℕ 100))

  -- 0.5 is one half, which a float holds exactly.
  pub status_of : floats.Carrier → OiStatus
  status_of pct =
      if n.le pct (n.div (n.of_ℕ 1) (n.of_ℕ 2))
      then confirmed
      else if n.le pct (n.of_ℕ 2)
      then minor_discrepancy
      else major_discrepancy

  major_note : OiStatus → List Note
  major_note major_discrepancy = deviation_note ∷ []
  major_note s = []

  pub compare_oi : ℤ → String → ℤ → OiResult floats.Carrier
  unfolding is_zero deviation status_of major_note
  compare_oi a a_status b =
      if is_zero a && is_zero b
      then record {
        canonical_oi = some (pos 0);
        canonical_provider = some provider_a;
        oi_deviation_pct = some floats.origin;
        oi_status = confirmed;
        notes = [];
      }
      else let pct = deviation a b in
        let blocked = is_blocked a_status in
        record {
          canonical_oi = some (if blocked then b else a);
          canonical_provider = some (if blocked then provider_b else provider_a);
          oi_deviation_pct = some pct;
          oi_status = status_of pct;
          notes = major_note (status_of pct);
        }

  unfoldable pub reconcile_oi : Option ℤ → String → Option ℤ → String → OiResult floats.Carrier
  unfolding single compare_oi
  reconcile_oi none a_status none b_status = record {
    canonical_oi = none;
    canonical_provider = none;
    oi_deviation_pct = none;
    oi_status = null_unavailable;
    notes =
        when (is_blocked a_status) (blocked_note provider_a a_status)
        ++ when (is_blocked b_status) (blocked_note provider_b b_status);
  }
  reconcile_oi none a_status (some b) b_status = single provider_b provider_a a_status b
  reconcile_oi (some a) a_status none b_status = single provider_a provider_b b_status a
  reconcile_oi (some a) a_status (some b) b_status = compare_oi a a_status b

-- The Greeks of one provider; `greeks_missing` is `none` where the dictionary has no such flag.
pub record Greeks (A : Type 0) : Type 0 where
  pub iv : Option A
  pub delta : Option A
  pub gamma : Option A
  pub theta : Option A
  pub vega : Option A
  pub rho : Option A
  pub greeks_missing : Option Bool

pub data GreekSource : Type 0 where
  no_source upstox_v3 angel_one : GreekSource

pub record CanonicalGreeks (A : Type 0) : Type 0 where
  pub values : Option (Greeks A)
  pub of_angel_one : Option (Greeks A)
  pub of_upstox : Option (Greeks A)
  pub greek_source : GreekSource

-- `greeks and not greeks.get("greeksMissing", True)`
unfoldable pub has_greeks : {A : Type 0} → Option (Greeks A) → Bool
has_greeks none = false
has_greeks (some g) = elim g.greeks_missing [ some false ↦ true | _ ↦ false ]

unfoldable pub reconcile_greeks :
    {A : Type 0} → Option (Greeks A) → Option (Greeks A) → CanonicalGreeks A
unfolding has_greeks
reconcile_greeks a u =
    let (values, source) =
      (if has_greeks u
        then (u, upstox_v3)
        else if has_greeks a
        then (a, angel_one)
        else (none, no_source)) in
    record { values = values; of_angel_one = a; of_upstox = u; greek_source = source }
