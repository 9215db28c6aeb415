-- ===== src/Alerts.antt =====
-- src/monitors/quality_alerter.py: the alerts on bad data, with their deduplication. The clock is read
-- in whole microseconds; a stored time is cut off to milliseconds, as its text is. An alert's
-- identifier, a random UUID, is an argument. Scores are those that the alert's model admits, 0..95.
pub mod Apart
pub mod Stored
use data_service.Common.{
  ℕ, zero, suc, ◌+◌, ◌*◌, ◌/◌, min, String, Bool, true, false, ◌&&◌, ◌||◌, Option, none, some, List,
  [], ◌∷◌, leb, ltb, if◌then◌else◌, String_discrete, Result, ok, err, str_eq, length, map,
}
use data_service.Common.Dict
use data_service.Quality.Score.{Grade, blocked, low, medium, high}

pub data Severity : Type 0 where
  critical warning info : Severity

pub record QualityAlert : Type 0 where
  pub alert_id : String
  pub symbol : String
  pub severity : Severity
  pub grade : Grade
  pub score : ℕ
  pub fired_at : ℕ
  pub resolved_at : Option ℕ
  pub resolved : Bool

pub record QualityAlerter : Type 0 where
  pub max_history : ℕ
  pub dedup_window_sec : ℕ
  pub alerts : List (String × QualityAlert)

pub data AlerterError : Type 0 where
  value_error : AlerterError

unfoldable pub init : ℕ → ℕ → Result AlerterError QualityAlerter
init max_history window =
    if ltb max_history 1
    then err value_error
    else ok (record { max_history = max_history; dedup_window_sec = window; alerts = [] })

unfoldable pub determine_severity : Grade → ℕ → Option Severity
determine_severity blocked score = some critical
determine_severity low score = some warning
determine_severity medium score = if ltb score 60 then some warning else none
determine_severity high score = none

unfoldable pub same_severity : Severity → Severity → Bool
same_severity critical critical = true
same_severity warning warning = true
same_severity info info = true
same_severity a b = false

-- The conditions under which `_is_duplicate` returns at an alert.
unfoldable pub suppresses : String → Severity → ℕ → ℕ → QualityAlert → Bool
unfolding same_severity
suppresses symbol severity window now a =
    if a.resolved
    then false
    else str_eq a.symbol symbol
      && (same_severity a.severity severity && leb now (a.fired_at * 1000 + window * 1000000))

unfoldable pub is_duplicate : String → Severity → ℕ → ℕ → List (String × QualityAlert) → Bool
unfolding suppresses
is_duplicate symbol severity window now [] = false
is_duplicate symbol severity window now ((key, a) ∷ rest) =
    suppresses symbol severity window now a || is_duplicate symbol severity window now rest

pub tail : {A : Type 0} → List A → List A
tail [] = []
tail (x ∷ xs) = xs

-- `_store_alert`
unfoldable pub store_alert : QualityAlert → QualityAlerter → QualityAlerter
unfolding tail
store_alert a s =
    let kept = if leb s.max_history (length s.alerts) then tail s.alerts else s.alerts in
    record s { alerts = Dict.put String_discrete a.alert_id a kept }

unfoldable pub new_alert : String → String → Severity → Grade → ℕ → ℕ → QualityAlert
new_alert alert_id symbol severity grade score now = record {
  alert_id = alert_id;
  symbol = symbol;
  severity = severity;
  grade = grade;
  score = score;
  fired_at = now / 1000;
  resolved_at = none;
  resolved = false;
}

pub fire :
    ℕ
    → String
    → String
    → ℕ
    → Grade
    → Option Severity
    → QualityAlerter
    → QualityAlerter × Option QualityAlert
unfolding is_duplicate store_alert new_alert
fire now alert_id symbol score grade none s = (s, none)
fire now alert_id symbol score grade (some severity) s =
    if is_duplicate symbol severity s.dedup_window_sec now s.alerts
    then (s, none)
    else let a = new_alert alert_id symbol severity grade score now in (store_alert a s, some a)

-- The list that comes back has one alert or none.
unfoldable pub check_and_alert :
    ℕ → String → String → ℕ → Grade → QualityAlerter → QualityAlerter × Option QualityAlert
unfolding fire determine_severity
check_and_alert now alert_id symbol score grade s =
    fire now alert_id symbol score grade (determine_severity grade score) s

pub resolve_found : ℕ → String → Option QualityAlert → QualityAlerter → QualityAlerter × Bool
resolve_found now alert_id none s = (s, false)
resolve_found now alert_id (some a) s =
    if a.resolved
    then (s, true)
    else let a' = record a { resolved = true; resolved_at = some (now / 1000) } in
      (record s { alerts = Dict.put String_discrete alert_id a' s.alerts }, true)

unfoldable pub resolve_alert : ℕ → String → QualityAlerter → QualityAlerter × Bool
unfolding resolve_found
resolve_alert now alert_id s =
    resolve_found now alert_id (Dict.get String_discrete alert_id s.alerts) s

-- A stable sort by the time of firing, the newest first.
insert_newest : QualityAlert → List QualityAlert → List QualityAlert
insert_newest a [] = a ∷ []
insert_newest a (b ∷ rest) =
    if leb b.fired_at a.fired_at then a ∷ (b ∷ rest) else b ∷ insert_newest a rest

unfoldable pub newest_first : List QualityAlert → List QualityAlert
unfolding insert_newest
newest_first [] = []
newest_first (a ∷ rest) = insert_newest a (newest_first rest)

unfoldable pub unresolved : List (String × QualityAlert) → List QualityAlert
unresolved [] = []
unresolved ((key, a) ∷ rest) =
    let others = unresolved rest in if a.resolved then others else a ∷ others

unfoldable pub get_active_alerts : QualityAlerter → List QualityAlert
unfolding unresolved newest_first
get_active_alerts s = newest_first (unresolved s.alerts)

take : {A : Type 0} → ℕ → List A → List A
take zero xs = []
take (suc k) [] = []
take (suc k) (x ∷ xs) = x ∷ take k xs

unfoldable pub get_alert_history : ℕ → QualityAlerter → Result AlerterError (List QualityAlert)
unfolding take newest_first
get_alert_history limit s =
    if ltb limit 1
    then err value_error
    else ok (take (min limit s.max_history) (newest_first (map (λ e. e.1) s.alerts)))
