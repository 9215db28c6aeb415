-- ===== src/MarketSession.antt =====
-- src/engines/market_session.py: the phase of the NSE's trading session at an instant, and the next
-- change of phase. Instants are microseconds since the Unix epoch; from 1970 on, Indian time is
-- five and a half hours ahead of UTC, so that a local date is a number of days since the epoch and
-- a local time a number of microseconds since midnight. The holiday calendar is an interface.
pub mod Phases
pub mod Changes
pub mod Scan
pub mod Days
use data_service.Common.{
  ℕ, zero, suc, ◌+◌, ◌-◌, ◌*◌, ◌/◌, ◌%◌, Bool, true, false, ◌&&◌, not, Option, none, some, List, [],
  ◌∷◌, leb, ltb, ◌==◌, ◌||◌, if◌then◌else◌,
}

pub data SessionPhase : Type 0 where
  pre_open pre_open_call_auction regular post_market closed muhurat : SessionPhase

abbrev pub minute : ℕ
minute = 60000000

abbrev pub day : ℕ
day = 86400000000

abbrev pub ist_offset : ℕ
ist_offset = 19800000000

-- 09:00, 09:08, 09:15, 15:30, 16:00; on half days 13:00, 13:30.
abbrev pub pre_open_start : ℕ
pre_open_start = 32400000000

abbrev pub pre_open_end : ℕ
pre_open_end = 32880000000

abbrev pub call_auction_end : ℕ
call_auction_end = 33300000000

abbrev pub regular_end : ℕ
regular_end = 55800000000

abbrev pub post_market_end : ℕ
post_market_end = 57600000000

abbrev pub half_regular_end : ℕ
half_regular_end = 46800000000

abbrev pub half_post_market_end : ℕ
half_post_market_end = 48600000000

-- `HolidayCalendar`, as far as the engine calls it; dates are days since the epoch.
pub record HolidayCalendar : Type 0 where
  pub is_trading_day : ℕ → Bool
  pub next_trading_day : ℕ → ℕ

-- `MarketSessionEngine`, with the module's set of half days.
pub record MarketSessionEngine : Type 0 where
  pub calendar : Option HolidayCalendar
  pub half_trading_days : List ℕ

unfoldable pub ist_date : ℕ → ℕ
ist_date t = (t + ist_offset) / day

unfoldable pub ist_time : ℕ → ℕ
ist_time t = (t + ist_offset) % day

-- Monday is 0; the epoch was a Thursday.
abbrev pub weekday : ℕ → ℕ
weekday date = (date + 3) % 7

-- The tests that the two kinds of day share, with the ends of the last two phases.
unfoldable pub classify : ℕ → ℕ → ℕ → SessionPhase
classify end_of_regular end_of_post_market t =
    if leb pre_open_start t && ltb t pre_open_end
    then pre_open
    else if leb pre_open_end t && ltb t call_auction_end
    then pre_open_call_auction
    else if leb call_auction_end t && ltb t end_of_regular
    then regular
    else if leb end_of_regular t && ltb t end_of_post_market
    then post_market
    else closed

unfoldable pub classify_normal_day : ℕ → SessionPhase
unfolding classify
classify_normal_day t = classify regular_end post_market_end t

unfoldable pub classify_half_day : ℕ → SessionPhase
unfolding classify
classify_half_day t = classify half_regular_end half_post_market_end t

is_in : ℕ → List ℕ → Bool
is_in d [] = false
is_in d (x ∷ xs) = d == x || is_in d xs

is_open : Option HolidayCalendar → ℕ → Bool
is_open none date = ltb (weekday date) 5
is_open (some c) date = c.is_trading_day date

-- `_is_trading_day_internal`
unfoldable pub is_trading_date : MarketSessionEngine → ℕ → Bool
unfolding is_open
is_trading_date e date = is_open e.calendar date

unfoldable pub is_trading_day : MarketSessionEngine → ℕ → Bool
unfolding is_trading_date ist_date
is_trading_day e t = is_trading_date e (ist_date t)

unfoldable pub is_half_day : MarketSessionEngine → ℕ → Bool
unfolding is_in
is_half_day e date = is_in date e.half_trading_days

-- The phase at a local date and time.
unfoldable pub local_phase : MarketSessionEngine → ℕ → ℕ → SessionPhase
unfolding is_trading_date is_half_day classify_normal_day classify_half_day
local_phase e date time =
    if is_trading_date e date
    then if is_half_day e date then classify_half_day time else classify_normal_day time
    else closed

unfoldable pub get_current_phase : MarketSessionEngine → ℕ → SessionPhase
unfolding local_phase ist_date ist_time
get_current_phase e t = local_phase e (ist_date t) (ist_time t)

-- The local time at which a phase ends; a special session has none.
pub end_of : Bool → SessionPhase → Option ℕ
end_of half closed = some pre_open_start
end_of half pre_open = some pre_open_end
end_of half pre_open_call_auction = some call_auction_end
end_of half regular = some (if half then half_regular_end else regular_end)
end_of half post_market = some (if half then half_post_market_end else post_market_end)
end_of half muhurat = none

snap_to : ℕ → Option ℕ → ℕ
unfolding ist_date
snap_to candidate none = candidate
snap_to candidate (some boundary) =
    let date = ist_date candidate in
    if leb (date * day + boundary + 2 * minute) (candidate + ist_offset)
    then (date + 1) * day + boundary - ist_offset
    else date * day + boundary - ist_offset

-- `_snap_to_boundary`
unfoldable pub snap_to_boundary : MarketSessionEngine → ℕ → SessionPhase → ℕ
unfolding snap_to end_of is_half_day ist_date
snap_to_boundary e candidate previous =
    snap_to candidate (end_of (is_half_day e (ist_date candidate)) previous)

abbrev pub number_of : SessionPhase → ℕ
number_of pre_open = 0
number_of pre_open_call_auction = 1
number_of regular = 2
number_of post_market = 3
number_of closed = 4
number_of muhurat = 5

abbrev pub is_same : SessionPhase → SessionPhase → Bool
is_same p q = number_of p == number_of q

-- The loop of `get_next_phase_change`: at most `steps` candidates, a minute apart.
unfoldable pub scan : MarketSessionEngine → SessionPhase → ℕ → ℕ → ℕ
unfolding get_current_phase snap_to_boundary
scan e current zero candidate = candidate
scan e current (suc steps) candidate = elim (is_same (get_current_phase e candidate) current) [
  | true ↦ scan e current steps (candidate + minute)
  | false ↦ snap_to_boundary e candidate current
]

-- Eight days of minutes.
abbrev pub max_steps : ℕ
max_steps = 11520

unfoldable pub get_next_phase_change : MarketSessionEngine → ℕ → ℕ
unfolding scan get_current_phase
get_next_phase_change e t = scan e (get_current_phase e t) max_steps (t + minute)

-- The first weekday among the given number of dates.
next_weekday : ℕ → ℕ → ℕ
next_weekday zero date = date
next_weekday (suc n) date =
    let rest = next_weekday n (date + 1) in if ltb (weekday date) 5 then date else rest

next_open : Option HolidayCalendar → ℕ → ℕ
unfolding next_weekday
next_open none date = next_weekday 30 (date + 1)
next_open (some c) date = c.next_trading_day date

unfoldable pub next_trading_day : MarketSessionEngine → ℕ → ℕ
unfolding next_open ist_date
next_trading_day e t = next_open e.calendar (ist_date t)
