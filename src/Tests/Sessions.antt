-- ===== src/Tests/Sessions.antt =====
-- The market session at concrete instants: Monday, 1 January 2024, and Friday, 5 January 2024.
use data_service.Common.{ℕ, ◌+◌, ◌*◌, ◌≡◌, ◌≢◌, refl, none, [], arith}
use data_service.MarketSession.{
  MarketSessionEngine, get_current_phase, get_next_phase_change, next_trading_day, ist_date, minute,
  closed, pre_open,
}
use data_service.MarketSession.Changes.{IsNextChange}
use data_service.MarketSession.Scan.{get_next_phase_change-IsNextChange}

abbrev engine : MarketSessionEngine
engine = record { calendar = none; half_trading_days = [] }

-- 05:30 in India.
abbrev monday : ℕ
monday = 1704067200000000

abbrev friday : ℕ
friday = 1704412800000000

monday-closed : get_current_phase engine monday ≡ closed
unfolding get_current_phase
monday-closed = refl

monday-opens : get_current_phase engine (monday + minute + 209 * minute) ≡ pre_open
unfolding get_current_phase
monday-opens = refl

monday-changes :
    get_current_phase engine (monday + minute + 209 * minute) ≢ get_current_phase engine monday
unfolding get_current_phase
monday-changes = λ q. ground arith

get_next_phase_change-IsNextChange_example :
    IsNextChange engine monday (get_next_phase_change engine monday)
get_next_phase_change-IsNextChange_example =
    get_next_phase_change-IsNextChange engine monday 209 (omega arith) monday-changes

-- The pre-open session starts at 09:00 in India.
monday-change : get_next_phase_change engine monday ≡ monday + 210 * minute
unfolding get_next_phase_change
monday-change = refl

-- Monday again.
friday-next : next_trading_day engine friday ≡ ist_date monday + 7
unfolding next_trading_day ist_date
friday-next = refl
