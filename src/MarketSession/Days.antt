-- ===== src/MarketSession/Days.antt =====
-- The next trading day without a holiday calendar.
use data_service.Common.{ℕ, suc, ◌+◌, ◌≤◌, ◌<◌, ◌≡◌, none, arith}
use data_service.MarketSession.{
  MarketSessionEngine, weekday, next_weekday, next_open, next_trading_day, ist_date,
}

-- The first working day from a date on: from Monday to Friday, with a weekend between at most.
pub record IsFirstWorkday (date n : ℕ) : Type 0 where
  pub later : date ≤ n
  pub working : weekday n < 5
  pub weekend : (d : ℕ) → date ≤ d → d < n → 5 ≤ weekday d

next_weekday-IsFirstWorkday :
    (k date : ℕ) → IsFirstWorkday date (next_weekday (suc (suc (suc k))) date)
unfolding next_weekday
next_weekday-IsFirstWorkday k date = record {
  later = ground arith;
  working = ground arith;
  weekend = λ d lower upper. ground arith;
}

-- Without a calendar the next trading day is the first day after the local date of the instant that
-- is no Saturday or Sunday.
pub next_trading_day-IsFirstWorkday :
    (e : MarketSessionEngine) (t : ℕ)
    → e.calendar ≡ none
    → IsFirstWorkday (ist_date t + 1) (next_trading_day e t)
unfolding next_trading_day next_open
next_trading_day-IsFirstWorkday e t h = rw h (next_weekday-IsFirstWorkday 27 (ist_date t + 1))
