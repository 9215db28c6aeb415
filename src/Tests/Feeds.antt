-- ===== src/Tests/Feeds.antt =====
-- The quality alerter, the comparison of providers, the filters of a backtest, the semantic checks and
-- the replay at concrete inputs.
use data_service.Common.{
  ℕ, ◌/◌, ◌≡◌, ◌≢◌, ◌↔◌, refl, true, false, Option, none, some, String, List, [], ◌∷◌, ◌++◌, map,
  ok, arith, ◌⊎◌, All, length, str_eq, if◌then◌else◌, String_discrete,
}
use data_service.Common.Int.{pos, ◌+ℤ◌, ◌≤ℤ◌}
use data_service.Common.Dict
use data_service.Common.Value.{none_value, flag, whole, real, get_value, to_int, truth}
use data_service.Quality.Score.{Grade}
use data_service.Alerts.{QualityAlerter}
use data_service.Alerts.Apart.{IsValid}
use data_service.Alerts.Stored.{Request, check, resolve, serve, serve-IsValid}
use data_service.Reconciliation.{
  Observation, Provider, Instant, ReconciliationResult, timestamp_of, reconcile_quote,
}
use data_service.Reconciliation.Quotes.{
  ltp_of, IsNotOlder, reconcile_quote-sources, reconcile_quote-IsNotOlder,
}
use data_service.Reconciliation.OpenInterest.{OiResult, reconcile_oi, is_blocked, provider_a}
use data_service.Reconciliation.OpenInterest.Supplied.{of_side, reconcile_oi-supplied}
use data_service.Backtest.{Record, filter, filter_by_available_at}
use data_service.Backtest.LookAhead.{IsFiltered, filter-IsFiltered}
use data_service.Validators.Semantic.{
  iv_zero, greeks_zero, Outcome, run_semantic_validation, greek_fields, quote_fields,
}
use data_service.Validators.Semantic.Zeros.{IsGenuine, run_semantic_validation-IsGenuine}
use data_service.Replay.{Tick, Turn, Frame, play, session_start, session_completed, tick_envelope}
use data_service.Replay.Frames.{IsPlayed, ticks_of, steps, positive, play-IsPlayed, play_complete}
use data_service.Tests.Numbers.{whole_numbers}

abbrev no_alerts : QualityAlerter
no_alerts = record { max_history = 2; dedup_window_sec = 300; alerts = [] }

no_alerts-IsValid : IsValid no_alerts
no_alerts-IsValid = record { room = omega arith; bounded = omega arith; distinct = tt; apart = tt }

abbrev requests : List Request
requests = check 1000000 "id1" "NIFTY" 20 Grade.blocked ∷ resolve 2000000 "id1" ∷ []

serve-IsValid_example : IsValid (serve requests no_alerts)
unfolding Dict.get
serve-IsValid_example = serve-IsValid requests no_alerts (refl, (tt, tt)) no_alerts-IsValid

abbrev read_time : String → Option Instant
read_time s = some (Instant.aware (if str_eq s "2024-01-25T09:15:00Z" then 0 else 9000000))

abbrev to_millis : ℕ → ℕ
to_millis micros = micros / 1000

abbrev quote : String → ℕ → Observation ℕ
quote time price = record {
  ltp = some price;
  oi = some (pos 12);
  iv = none;
  source_timestamp = some time;
  received_at = none;
}

abbrev early : Observation ℕ
early = quote "2024-01-25T09:15:00Z" 100

abbrev later : Observation ℕ
later = quote "2024-01-25T09:15:09Z" 101

abbrev compared : ReconciliationResult ℕ
compared = reconcile_quote read_time to_millis whole_numbers (some early) (some later)

reconcile_quote-sources_example :
    (compared.canonical_ltp
      ≡ ltp_of read_time to_millis whole_numbers compared.canonical_provider
          (some early)
          (some later))
    × (compared.canonical_oi ≡ some (pos 12))
    × ((compared.canonical_provider ≡ none) ↔ ((some early ≡ none) × (some later ≡ none)))
reconcile_quote-sources_example =
    reconcile_quote-sources read_time to_millis whole_numbers (some early) (some later)

reconcile_quote-IsNotOlder_example :
    (p : Provider) × (compared.canonical_provider ≡ some p)
    × IsNotOlder read_time to_millis whole_numbers p 0 9000000
    × (compared.canonical_ltp
        ≡ ltp_of read_time to_millis whole_numbers (some p) (some early) (some later))
unfolding timestamp_of reconcile_quote String_discrete
reconcile_quote-IsNotOlder_example =
    reconcile_quote-IsNotOlder read_time to_millis whole_numbers early later 0 9000000
      ("2024-01-25T09:15:00Z", refl, refl) ("2024-01-25T09:15:09Z", refl, refl) tt

abbrev same_float : ℕ → ℕ
same_float x = x

abbrev supplied : OiResult ℕ
supplied =
    reconcile_oi whole_numbers same_float (some (pos 12)) "CIRCUIT_BLOCKED" (some (pos 15)) "OK"

reconcile_oi-supplied_example :
    (supplied.canonical_oi ≡ of_side supplied.canonical_provider (some (pos 12)) (some (pos 15)))
    × ((supplied.canonical_oi ≡ none) ↔ ((some (pos 12) ≡ none) × (some (pos 15) ≡ none)))
    × ((some (pos 15) ≡ none)
        ⊎ ((is_blocked "CIRCUIT_BLOCKED" ≡ false)
            ⊎ ((supplied.canonical_provider ≢ some provider_a)
                ⊎ ((some (pos 12) ≡ some (pos 0)) × (some (pos 15) ≡ some (pos 0))))))
reconcile_oi-supplied_example =
    reconcile_oi-supplied whole_numbers same_float (some (pos 12)) (some (pos 15)) "CIRCUIT_BLOCKED"
      "OK"

abbrev bar_at : ℕ → ℕ → Record whole_numbers
bar_at time available = ("time", whole (pos time)) ∷ ("availableAtMs", real available) ∷ []

abbrev bars : List (Record whole_numbers)
bars = bar_at 100 160 ∷ bar_at 200 260 ∷ []

strict : filter_by_available_at whole_numbers bars (pos 200) ≡ ok (bar_at 100 160 ∷ [])
unfolding filter_by_available_at get_value Dict.get String_discrete to_int ◌+ℤ◌
strict = refl

plain : filter whole_numbers bars (pos 200) (pos 50) ≡ ok (bar_at 100 160 ∷ [])
unfolding filter get_value Dict.get String_discrete to_int ◌+ℤ◌
plain = refl

filter-IsFiltered_example :
    IsFiltered whole_numbers "availableAtMs" (pos 0) (pos 200) bars (bar_at 100 160 ∷ [])
    × (pos 0 ≤ℤ pos 50)
    × IsFiltered whole_numbers "time" (pos 50) (pos 200) bars (bar_at 100 160 ∷ [])
filter-IsFiltered_example =
    filter-IsFiltered whole_numbers bars (bar_at 100 160 ∷ []) (bar_at 100 160 ∷ []) (pos 200)
      (pos 50) strict plain

abbrev option_row : Record whole_numbers
option_row = ("iv", whole (pos 0)) ∷ ("delta", real 0) ∷ ("bid", real 5) ∷ []

abbrev corrected : Outcome whole_numbers
corrected = record {
  corrected =
      ("iv", none_value)
      ∷ ("delta", none_value)
      ∷ ("bid", real 5)
      ∷ ("oiMissing", flag true)
      ∷ ("ivMissing", flag true)
      ∷ [];
  incident = some (record {
    instrument_id = none;
    provider = "upstox";
    corrections = iv_zero ∷ greeks_zero ∷ [];
  });
}

validated : run_semantic_validation whole_numbers option_row "upstox" ≡ ok corrected
unfolding run_semantic_validation get_value Dict.get String_discrete truth Dict.put
validated = refl

run_semantic_validation-IsGenuine_example :
    All (IsGenuine whole_numbers corrected.corrected) ("iv" ∷ (greek_fields ++ quote_fields))
run_semantic_validation-IsGenuine_example =
    run_semantic_validation-IsGenuine whole_numbers option_row "upstox" corrected validated

abbrev tick_at : ℕ → Tick ℕ
tick_at time = record { time = time; fields = 100 }

abbrev calm : Turn
calm = record { stopping = false; speed = 1000; delivered = true }

abbrev rest_of_ticks : List (Tick ℕ × Turn)
rest_of_ticks = (tick_at 1500, record calm { speed = 2000 }) ∷ (tick_at 1200, calm) ∷ []

abbrev turns : List (Tick ℕ × Turn)
turns = (tick_at 1000, calm) ∷ rest_of_ticks

play-IsPlayed_example :
    ((fs : List (Frame ℕ)) × ((play true true 1000 turns).frames
        ≡ session_start (length turns) 1000 ∷ fs)
      × IsPlayed 0 (ticks_of turns) (play true true 1000 turns).ticks_sent fs)
    × ((play false true 1000 turns).frames ≡ [])
play-IsPlayed_example = play-IsPlayed true 1000 turns

play_complete_example :
    ((play true true 1000 turns).frames
      ≡ session_start (length turns) 1000
        ∷ (map tick_envelope (ticks_of turns) ++ session_completed (length turns) ∷ []))
    × ((play true true 1000 turns).ticks_sent ≡ length turns)
    × ((play true true 1000 turns).sleeps ≡ positive (steps 1000 rest_of_ticks))
play_complete_example =
    play_complete 1000 (tick_at 1000) calm rest_of_ticks
      ((refl, refl), ((refl, refl), ((refl, refl), tt)))
