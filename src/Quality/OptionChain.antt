-- ===== src/Quality/OptionChain.antt =====
-- src/engines/quality_engine.py: `validate_option_chain_record`. What the schema library makes of a
-- row's types is an argument, and so is how `date.fromisoformat` reads the expiry: as a day number.
pub mod Sound
use data_service.Common.{
  ℕ, String, Bool, true, false, not, ◌&&◌, ◌||◌, Option, none, some, List, [], ◌∷◌, ◌++◌, leb, ltb,
  if◌then◌else◌, is_empty, strip, str_eq,
}
use data_service.Common.Int.{ℤ, pos, ltb_ℤ}
use data_service.Common.Value.{Numbers}
use data_service.Common.Case.{codes, upper, same_codes}
use data_service.Quality.Consistency.{when}

pub record OptionChainRecord (A : Type 0) : Type 0 where
  pub symbol : String
  pub expiry : String
  pub strike : A
  pub option_type : String
  pub ltp : Option A
  pub oi : Option A
  pub volume : Option A
  pub iv : Option A
  pub bid : Option A
  pub ask : Option A
  pub timestamp : ℤ

pub data Issue : Type 0 where
  schema_validation_failed : Issue
  invalid_option_type invalid_strike invalid_ltp negative_oi negative_volume : Issue
  non_positive_iv implausible_iv invalid_bid crossed_market : Issue
  expired_contract invalid_expiry wide_spread : Issue

pub record OptionChainValidationResult : Type 0 where
  pub valid : Bool
  pub issues : List Issue

-- The two validators of the model, on a row whose types are right.
unfoldable pub passes_validators : {A : Type 0} → OptionChainRecord A → Bool
passes_validators r = not (str_eq (strip r.symbol) "") && ltb_ℤ (pos 0) r.timestamp

-- `OptionChainRecord.model_validate`
pub model_validate : {A : Type 0} → Option (OptionChainRecord A) → Option (OptionChainRecord A)
model_validate none = none
model_validate (some r) = if passes_validators r then some r else none

module _ (n : Numbers) where
  open n use {floats}

  unfoldable pub negative : Option floats.Carrier → Bool
  negative none = false
  negative (some x) = floats.lt x floats.origin

  pub iv_issues : Option floats.Carrier → List Issue
  iv_issues none = []
  iv_issues (some x) =
      if n.le x floats.origin
      then non_positive_iv ∷ []
      else when (floats.lt (n.of_ℕ 500) x) implausible_iv

  pub quote_issues : Option floats.Carrier → Option floats.Carrier → List Issue
  quote_issues (some bid) (some ask) =
      when (floats.lt bid floats.origin) invalid_bid ++ when (floats.lt ask bid) crossed_market
  quote_issues bid ask = []

  -- `spread_pct`
  unfoldable pub spread_percent : (bid ask ltp : floats.Carrier) → floats.Carrier
  spread_percent bid ask ltp = n.mul (n.div (n.sub ask bid) ltp) (n.of_ℕ 100)

  pub positive : floats.Carrier → Bool
  positive x = floats.lt floats.origin x

  pub spread_issues : (bid ask ltp : Option floats.Carrier) → List Issue
  unfolding positive spread_percent
  spread_issues (some bid) (some ask) (some ltp) =
      when
        (positive bid
          && (positive ask && (positive ltp && n.le (n.of_ℕ 50) (spread_percent bid ask ltp))))
        wide_spread
  spread_issues bid ask ltp = []

  pub expiry_issues : ℕ → Option ℕ → List Issue
  expiry_issues today none = invalid_expiry ∷ []
  expiry_issues today (some day) = when (ltb day today) expired_contract

  pub is_option_type : String → Bool
  is_option_type t = same_codes (codes "CE") (upper t) || same_codes (codes "PE") (upper t)

  -- The nine rules, in the order of the source.
  unfoldable pub issues_of : (String → Option ℕ) → ℕ → OptionChainRecord floats.Carrier → List Issue
  unfolding negative iv_issues quote_issues spread_issues expiry_issues is_option_type
  issues_of from_iso today r =
      when (not (is_option_type r.option_type)) invalid_option_type
      ++ (when (n.le r.strike floats.origin) invalid_strike
          ++ (when (negative r.ltp) invalid_ltp
              ++ (when (negative r.oi) negative_oi
                  ++ (when (negative r.volume) negative_volume
                      ++ (iv_issues r.iv
                          ++ (quote_issues r.bid r.ask
                              ++ (expiry_issues today (from_iso r.expiry)
                                  ++ spread_issues r.bid r.ask r.ltp)))))))

  pub report_on :
      (String → Option ℕ)
      → ℕ
      → Option (OptionChainRecord floats.Carrier)
      → OptionChainValidationResult
  unfolding issues_of
  report_on from_iso today none = record { valid = false; issues = schema_validation_failed ∷ [] }
  report_on from_iso today (some r) =
      let issues = issues_of from_iso today r in record { valid = is_empty issues; issues = issues }

  -- `today` is read off the clock in the rule on the expiry.
  unfoldable pub validate_option_chain_record :
      (String → Option ℕ)
      → ℕ
      → Option (OptionChainRecord floats.Carrier)
      → OptionChainValidationResult
  unfolding report_on
  validate_option_chain_record from_iso today raw = report_on from_iso today (model_validate raw)
