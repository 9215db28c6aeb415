-- ===== src/Tests/Quality.antt =====
-- The quality engine at concrete inputs.
use data_service.Common.{
  ℕ, ◌+◌, ◌≤◌, ◌≡◌, ◌↔◌, refl, true, false, not, ◌&&◌, Option, none, some, String, List, [], ◌∷◌,
  ◌++◌, ok, arith, ◌⊎◌, String_discrete,
}
use data_service.Common.Int.{pos, ◌+ℤ◌}
use data_service.Common.Dict
use data_service.Common.Value.{whole, text, flag, get_value, either_value, to_int, to_float}
use data_service.Quality.Score.{grade_score, Grade}
use data_service.Common.Case.{same_codes, lower}
use data_service.Quality.Score.Bounds.{Evidence, IsNoBetter, score_of, total_score_mono}
use data_service.Quality.Freshness.{find, classify, expired, unknown}
use data_service.Quality.Freshness.Ageing.{classify-monthly}
use data_service.Quality.Gate.{DataQualityGate, GateResult, evaluate, check}
use data_service.Quality.Consistency.{Data}
use data_service.Quality.Gate.Sound.{HoldsAll, evaluate-reasons}
use data_service.Quality.Gate.Usable.{IsUsable, evaluate-IsUsable}
use data_service.Quality.Classification.{
  Texts, QualityClassification, StrategyQualityProfile, Remark, classify_quality,
  apply_strategy_overrides, freshness_failed,
}
use data_service.Quality.Classification.Overrides.{apply-never_relaxes, apply-check}
use data_service.Quality.OptionChain.{
  OptionChainRecord, validate_option_chain_record, passes_validators,
}
use data_service.Quality.OptionChain.Sound.{IsSoundRow, validate_iff}
use data_service.Tests.Numbers.{whole_numbers}

abbrev good_evidence : Evidence
good_evidence = record {
  freshness = pos 35;
  completeness = pos 25;
  provider_health = pos 20;
  timestamp_valid = true;
  agreement = pos 10;
  sequence_integrity = true;
}

abbrev weak_evidence : Evidence
weak_evidence = record good_evidence { freshness = pos 10; sequence_integrity = false }

weak-IsNoBetter : IsNoBetter weak_evidence good_evidence
weak-IsNoBetter = record {
  freshness_le = ground arith;
  completeness_le = ground arith;
  provider_health_le = ground arith;
  timestamp_le = λ h. h;
  agreement_le = ground arith;
  integrity_le = λ h. refl;
}

total_score_mono_example : score_of weak_evidence ≤ score_of good_evidence
total_score_mono_example = total_score_mono weak_evidence good_evidence weak-IsNoBetter

abbrev candle_time : ℕ
candle_time = 1700000000000000

monthly : classify (candle_time + 1300000000000) candle_time "india" "1M" ≡ ok expired
unfolding classify same_codes lower find
monthly = refl

classify-monthly_example : (expired ≡ expired) ⊎ (expired ≡ unknown)
classify-monthly_example =
    classify-monthly (candle_time + 1300000000000) candle_time "1M" expired (omega arith) monthly

abbrev dataset : Data whole_numbers
dataset =
    ("symbol", text "NIFTY")
    ∷ ("timestamp", whole (pos 1700000000000))
    ∷ ("open", whole (pos 100))
    ∷ ("high", whole (pos 110))
    ∷ ("low", whole (pos 90))
    ∷ ("close", whole (pos 105))
    ∷ ("volume", whole (pos 7))
    ∷ ("providerAvailable", flag true)
    ∷ ("confidenceScore", whole (pos 80))
    ∷ []

abbrev clock : ℕ
clock = 1700000060000

abbrev open_gate : DataQualityGate ℕ
open_gate = record {
  data_fresh = true;
  data_complete = true;
  data_timestamp_valid = true;
  data_provider_healthy = true;
  data_semantically_valid = true;
  signal_engine_allowed = true;
  confidence_score = 80;
  block_reasons = [];
}

lets_through : evaluate whole_numbers (pos clock) (pos clock) 50 dataset ≡ ok open_gate
unfolding evaluate get_value Dict.get String_discrete either_value to_int to_float ◌+ℤ◌
lets_through = refl

evaluate-reasons_example :
    ((open_gate.signal_engine_allowed ≡ true) ↔ (open_gate.block_reasons ≡ []))
    × ((open_gate.signal_engine_allowed ≡ true) ↔ HoldsAll whole_numbers open_gate)
evaluate-reasons_example =
    evaluate-reasons whole_numbers (pos clock) (pos clock) 50 dataset open_gate lets_through

evaluate-IsUsable_example : IsUsable whole_numbers (pos clock) 80 dataset
evaluate-IsUsable_example =
    evaluate-IsUsable whole_numbers (pos clock) (pos clock) 50 dataset open_gate lets_through refl

abbrev no_words : Texts ℕ
no_words = record { shows_score = λ v. false; shows_stale = λ v. false }

abbrev profile : StrategyQualityProfile
profile = record { strategy_id = "breakout"; min_confidence_score = 85; require_fresh_data = true }

abbrev result : GateResult ℕ
result = record { passed = true; failed_conditions = []; score = 80; gate = some open_gate }

abbrev base_class : QualityClassification ℕ
base_class = record { grade = Grade.high; signal_engine_allowed = true; score = 80; reasons = [] }

abbrev strict_class : QualityClassification ℕ
strict_class = record base_class { reasons = Remark.below_minimum "breakout" 85 80 ∷ [] }

classified : classify_quality no_words 80 result ≡ ok base_class
unfolding classify_quality grade_score
classified = refl

overridden : apply_strategy_overrides no_words 80 result profile ≡ ok strict_class
unfolding apply_strategy_overrides grade_score
overridden = refl

apply-never_relaxes_example :
    (true ≡ (true && not (profile.require_fresh_data && freshness_failed no_words result)))
    × (strict_class.score ≡ base_class.score)
    × (strict_class.grade ≡ base_class.grade)
    × (extra : List (Remark ℕ)) × (strict_class.reasons ≡ base_class.reasons ++ extra)
    × ((30 ≤ 80) ⊎ (true ≡ false))
apply-never_relaxes_example =
    apply-never_relaxes no_words 80 result profile base_class strict_class classified overridden

checked : check whole_numbers (pos clock) (pos clock) 50 dataset ≡ ok result
unfolding check evaluate get_value Dict.get String_discrete either_value to_int to_float ◌+ℤ◌
checked = refl

apply-check_example : (true ≡ true) × ((true ≡ false) ⊎ (freshness_failed no_words result ≡ false))
apply-check_example =
    apply-check whole_numbers no_words (pos clock) (pos clock) 50 dataset result 80 profile
      base_class strict_class checked classified overridden

abbrev row : OptionChainRecord ℕ
row = record {
  symbol = "NIFTY";
  expiry = "2024-01-25";
  strike = 21000;
  option_type = "ce";
  ltp = some 150;
  oi = some 12;
  volume = none;
  iv = some 14;
  bid = some 149;
  ask = some 151;
  timestamp = pos 1700000000000;
}

abbrev any_day : String → Option ℕ
any_day s = some 19747

validate_iff_example :
    (((validate_option_chain_record whole_numbers any_day 19700 (some row)).valid ≡ true)
      ↔ ((passes_validators row ≡ true) × IsSoundRow whole_numbers any_day 19700 row))
    × (((validate_option_chain_record whole_numbers any_day 19700 (some row)).valid ≡ true)
        ↔ ((validate_option_chain_record whole_numbers any_day 19700 (some row)).issues ≡ []))
validate_iff_example = validate_iff whole_numbers any_day 19700 row
