-- ===== src/Reconciliation.antt =====
-- src/engines/reconciliation_engine.py: the comparison of what two providers say of one instrument.
-- How a time stamp's text is read, `datetime.fromisoformat`, is a parameter, and so is `cut`, the
-- `int(total_seconds() * 1000)` of a difference of that many microseconds, which is reckoned in floats.
pub mod OpenInterest
pub mod Quotes
use data_service.Common.{
  ℕ, ◌+◌, ◌-◌, ◌*◌, String, Bool, true, false, not, ◌&&◌, ◌||◌, Option, none, some, List, [], ◌∷◌,
  leb, ltb, if◌then◌else◌,
}
use data_service.Common.Int.{ℤ, sub_ℕ, pos_part, neg_part}
use data_service.Common.Value.{Numbers}

pub data Classification : Type 0 where
  match minor_difference significant_difference stale missing : Classification

pub data Provider : Type 0 where
  angel_one upstox : Provider

-- An instant in microseconds, with or without a time zone.
pub data Instant : Type 0 where
  aware naive : ℕ → Instant

pub data LtpRule : Type 0 where
  fresher_timestamp providers_agree : Provider → LtpRule
  significant_diff_upstox_full_quote_preferred conflict_upstox_default : LtpRule

pub data OiRule : Type 0 where
  angel_one_oi_preferred upstox_oi_fallback oi_unavailable_both_providers : OiRule

pub data Rule : Type 0 where
  both_providers_unavailable angel_one_unavailable_upstox_only : Rule
  upstox_unavailable_angel_one_only : Rule
  compared : LtpRule → OiRule → Rule

pub record Observation (A : Type 0) : Type 0 where
  pub ltp : Option A
  pub oi : Option ℤ
  pub iv : Option A
  pub source_timestamp : Option String
  pub received_at : Option String

pub record ReconciliationResult (A : Type 0) : Type 0 where
  pub classification : Classification
  pub canonical_provider : Option Provider
  pub canonical_ltp : Option A
  pub canonical_oi : Option ℤ
  pub resolution_rule : Rule
  pub ltp_diff_abs : Option A
  pub ltp_diff_pct : Option A
  pub oi_diff_abs : Option ℕ
  pub iv_diff_abs : Option A
  pub timestamp_diff_ms : Option ℕ

abbrev pub distance : ℕ → ℕ → ℕ
distance a b = if leb a b then b - a else a - b

-- `abs(a - b)`
unfoldable pub abs_diff : ℤ → ℤ → ℕ
abs_diff a b = distance (pos_part a + neg_part b) (pos_part b + neg_part a)

both {ℓ κ} : {A : Type ℓ} {B : Type κ} → (A → A → B) → Option A → Option A → Option B
both f (some a) (some b) = some (f a b)
both f a b = none

-- `a or b`, on texts that may be missing.
either_text : Option String → Option String → Option String
either_text none b = b
either_text (some String.[]) b = b
either_text (some (String.◌∷◌ c s)) b = some (String.◌∷◌ c s)

-- A naive instant is taken as UTC.
micros : Instant → ℕ
micros (aware t) = t
micros (naive t) = t

module _ (from_iso : String → Option Instant) (cut : ℕ → ℕ) where
  pub read_both : Option Instant → Option Instant → Option ℕ
  unfolding micros
  read_both (some a) (some b) = some (cut (distance (micros a) (micros b)))
  read_both a b = none

  -- `_timestamp_diff_ms`
  pub timestamp_diff_ms : Option String → Option String → Option ℕ
  unfolding read_both
  timestamp_diff_ms (some a) (some b) = read_both (from_iso a) (from_iso b)
  timestamp_diff_ms a b = none

  -- A comparison of a naive with an aware instant raises, as a bad text does: the handler says no.
  unfoldable pub is_later : Option Instant → Option Instant → Bool
  is_later (some (aware a)) (some (aware b)) = ltb b a
  is_later (some (naive a)) (some (naive b)) = ltb b a
  is_later a b = false

  pub fresher_text : Option String → Option String → Bool
  unfolding is_later
  fresher_text none b = false
  fresher_text (some a) none = true
  fresher_text (some a) (some b) = is_later (from_iso a) (from_iso b)

  unfoldable pub timestamp_of : {A : Type 0} → Observation A → Option String
  unfolding either_text
  timestamp_of o = either_text o.source_timestamp o.received_at

  -- `_is_fresher`
  unfoldable pub is_fresher : {A : Type 0} → Observation A → Observation A → Bool
  unfolding fresher_text timestamp_of
  is_fresher a b = fresher_text (timestamp_of a) (timestamp_of b)

  module _ (n : Numbers) where
    open n use {floats}

    -- 1 / 1000, which is the float nearest to 0.001; so too 5 / 1000.
    abbrev pub thousandths : ℕ → floats.Carrier
    thousandths k = n.div (n.of_ℕ k) (n.of_ℕ 1000)

    pub by_difference : Option floats.Carrier → Classification
    by_difference none = missing
    by_difference (some pct) =
        if floats.lt pct (thousandths 1)
        then match
        else if floats.lt pct (thousandths 5)
        then minor_difference
        else significant_difference

    pub is_stale : Option ℕ → Bool
    is_stale none = false
    is_stale (some ms) = ltb 5000 ms

    -- `_classify_ltp_diff`
    unfoldable pub classify_ltp_diff : Option floats.Carrier → Option ℕ → Classification
    unfolding by_difference is_stale
    classify_ltp_diff pct ms = if is_stale ms then stale else by_difference pct

    ltp_difference : Option floats.Carrier → Option floats.Carrier → Option floats.Carrier
    unfolding both
    ltp_difference a b = both (λ x y. n.abs (n.sub x y)) a b

    -- The difference in parts of the price of Angel One, unless that is 0.
    pub ltp_percent : Option floats.Carrier → Option floats.Carrier → Option floats.Carrier
    ltp_percent (some a) (some b) =
        if n.is_nonzero a then some (n.div (n.abs (n.sub a b)) a) else none
    ltp_percent a b = none

    abbrev pub Selected : Type 0
    Selected = Provider × Option floats.Carrier × LtpRule

    pub choose :
        (Provider → LtpRule) → Observation floats.Carrier → Observation floats.Carrier → Selected
    unfolding is_fresher
    choose rule a u =
        if is_fresher u a then (upstox, u.ltp, rule upstox) else (angel_one, a.ltp, rule angel_one)

    pub select_ltp :
        Classification → Observation floats.Carrier → Observation floats.Carrier → Selected
    unfolding choose
    select_ltp stale a u = choose fresher_timestamp a u
    select_ltp match a u = choose providers_agree a u
    select_ltp minor_difference a u = choose providers_agree a u
    select_ltp significant_difference a u =
        (upstox, u.ltp, significant_diff_upstox_full_quote_preferred)
    select_ltp missing a u = (upstox, u.ltp, conflict_upstox_default)

    pub select_oi : Option ℤ → Option ℤ → Option ℤ × OiRule
    select_oi (some a) u = (some a, angel_one_oi_preferred)
    select_oi none (some u) = (some u, upstox_oi_fallback)
    select_oi none none = (none, oi_unavailable_both_providers)

    -- `_select_canonical_quote`
    unfoldable pub select_canonical_quote :
        Classification
        → Observation floats.Carrier
        → Observation floats.Carrier
        → Provider × Option floats.Carrier × Option ℤ × Rule
    unfolding select_ltp select_oi
    select_canonical_quote c a u =
        let (provider, ltp, ltp_rule) = select_ltp c a u in
        let (oi, oi_rule) = select_oi a.oi u.oi in (provider, ltp, oi, compared ltp_rule oi_rule)

    only :
        Option Provider
        → Option floats.Carrier
        → Option ℤ
        → Rule
        → ReconciliationResult floats.Carrier
    only provider ltp oi rule = record {
      classification = missing;
      canonical_provider = provider;
      canonical_ltp = ltp;
      canonical_oi = oi;
      resolution_rule = rule;
      ltp_diff_abs = none;
      ltp_diff_pct = none;
      oi_diff_abs = none;
      iv_diff_abs = none;
      timestamp_diff_ms = none;
    }

    unfoldable pub reconcile_quote :
        Option (Observation floats.Carrier)
        → Option (Observation floats.Carrier)
        → ReconciliationResult floats.Carrier
    unfolding only both ltp_difference ltp_percent timestamp_diff_ms classify_ltp_diff
        select_canonical_quote
    reconcile_quote none none = only none none none both_providers_unavailable
    reconcile_quote none (some u) = only (some upstox) u.ltp u.oi angel_one_unavailable_upstox_only
    reconcile_quote (some a) none =
        only (some angel_one) a.ltp a.oi upstox_unavailable_angel_one_only
    reconcile_quote (some a) (some u) =
        let pct = ltp_percent a.ltp u.ltp in
        let ms = timestamp_diff_ms a.source_timestamp u.source_timestamp in
        let c = classify_ltp_diff pct ms in
        let (provider, ltp, oi, rule) = select_canonical_quote c a u in
        record {
          classification = c;
          canonical_provider = some provider;
          canonical_ltp = ltp;
          canonical_oi = oi;
          resolution_rule = rule;
          ltp_diff_abs = ltp_difference a.ltp u.ltp;
          ltp_diff_pct = pct;
          oi_diff_abs = both abs_diff a.oi u.oi;
          iv_diff_abs = ltp_difference a.iv u.iv;
          timestamp_diff_ms = ms;
        }
