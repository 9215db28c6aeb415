-- ===== src/Candle.antt =====
-- src/engines/candle_builder.py: ticks become candles. This file has the accumulator `CandleState`;
-- the children have the builder and the proofs. Prices are floats behind the interface `Floats`;
-- `round4` is Python's `round(x, 4)`, and `pick` the choice of keys that are kept when the set of
-- seen ticks is trimmed (the source takes the last 5000 in the set's own, unspecified order).
pub mod Builder
pub mod Frame
use data_service.Common.{
  ℕ, zero, suc, ◌+◌, ◌*◌, String, Bool, true, false, Option, none, some, List, [], ◌∷◌, ◌++◌, leb,
  ltb, length, if◌then◌else◌, ite,
}
use data_service.Common.Int.{ℤ, pos, leb_ℤ, sub_ℕ}
use data_service.Common.Float.{Floats}
use data_service.Validators.Ohlcv
use data_service.Validators.Ohlcv.{max_float, min_float}

-- A tick as it comes from a provider; a field may be missing. A volume can be below zero.
pub record Tick (A : Type 0) : Type 0 where
  pub instrument_id_camel : Option String
  pub instrument_id : Option String
  pub exchange : Option String
  pub exchange_ts_ms : Option ℕ
  pub event_time_ms : Option ℕ
  pub ltp : Option A
  pub volume : Option ℤ
  pub oi : Option ℕ
  pub open_interest : Option ℕ
  pub provider : Option String

-- Python's `a or b` on numbers and texts: 0 and the empty text are false.
abbrev pub or_number : Option ℕ → Option ℕ → Option ℕ
or_number (some (suc n)) b = some (suc n)
or_number _ b = b

abbrev pub or_text : Option String → String → String
or_text none b = b
or_text (some String.[]) b = b
or_text (some (String.◌∷◌ c s)) b = String.◌∷◌ c s

abbrev pub get_or {ℓ} : {A : Type ℓ} → Option A → A → A
get_or none d = d
get_or (some x) d = x

-- The key by which repeated ticks are found: time, rounded price and volume.
abbrev pub TickKey : Type 0 → Type 0
TickKey R = ℕ × R × ℤ

pub record CandleState (A R : Type 0) : Type 0 where
  pub instrument_id : String
  pub exchange : String
  pub interval : String
  pub candle_time_ms : ℕ
  pub open_price : A
  pub high : A
  pub low : A
  pub close : A
  pub volume : ℤ
  pub open_interest : Option ℕ
  pub oi_change : Option ℤ
  pub tick_count : ℕ
  pub finalised : Bool
  pub available_at_ms : Option ℕ
  pub ingestion_time_ms : ℕ
  pub provider : String
  pub seen_tick_keys : List (TickKey R)

abbrev pub is_member {ℓ} : {A : Type ℓ} → Discrete A → A → List A → Bool
is_member dec a [] = false
is_member dec a (x ∷ xs) = ite (dec a x) true (is_member dec a xs)

module _ (f : Floats) {R : Type 0} (dec : Discrete (TickKey R)) (round4 : f.Carrier → R)
    (pick : List (TickKey R) → List (TickKey R)) where
  open f use {Carrier}

  abbrev Candle : Type 0
  Candle = CandleState Carrier R

  -- The OHLC and volume part of `apply_tick`.
  update_prices : Carrier → ℤ → Candle → Candle
  unfolding max_float min_float
  update_prices ltp volume c =
      if leb c.tick_count 0
      then record c { open_price = ltp; high = ltp; low = ltp; close = ltp; volume = volume }
      else record c {
        high = max_float f c.high ltp;
        low = min_float f c.low ltp;
        close = ltp;
        volume = if leb_ℤ c.volume volume then volume else c.volume;
      }

  oi_difference : Option ℕ → ℕ → Option ℤ → Option ℤ
  oi_difference none oi old = old
  oi_difference (some previous) oi old = some (sub_ℕ oi previous)

  update_oi : Option ℕ → Candle → Candle
  unfolding oi_difference
  update_oi none c = c
  update_oi (some oi) c = record c {
    open_interest = some oi;
    oi_change = oi_difference c.open_interest oi c.oi_change;
  }

  add_key : TickKey R → Candle → Candle
  add_key key c =
      let keys = c.seen_tick_keys ++ key ∷ [] in
      record c { seen_tick_keys = if ltb 10000 (length keys) then pick keys else keys }

  count_tick : Option String → Candle → Candle
  count_tick provider c = record c {
    tick_count = c.tick_count + 1;
    provider = or_text provider c.provider;
  }

  use_price : Tick Carrier → Option Carrier → Candle → Candle × Bool
  unfolding update_prices update_oi add_key count_tick
  use_price tick none c = (c, false)
  use_price tick (some ltp) c =
      let volume = get_or tick.volume (pos 0) in
      let time = get_or (or_number tick.exchange_ts_ms tick.event_time_ms) 0 in
      let key : TickKey R = (time, round4 ltp, volume) in
      if is_member dec key c.seen_tick_keys then (c, false) else (
        count_tick tick.provider (
            update_oi (or_number tick.oi tick.open_interest)
              (update_prices ltp volume (add_key key c))),
        true,
      )

  -- The new candle, and whether the tick was used.
  unfoldable pub apply_tick : Tick Carrier → Candle → Candle × Bool
  unfolding use_price
  apply_tick tick c = use_price tick tick.ltp c

module _ (f : Floats) {R : Type 0} (of_int : ℤ → f.Carrier) where
  open f use {Carrier}

  -- The prices and the volume of `to_dict`, as the candle validator reads them; `of_int` is
  -- `float(n)`. The low is taken down to the open and the close.
  unfoldable pub to_dict : CandleState Carrier R → Ohlcv.Candle Carrier
  unfolding min_float
  to_dict c = record {
    open_price = Ohlcv.Value.number c.open_price;
    high = Ohlcv.Value.number c.high;
    low = Ohlcv.Value.number (min_float f (min_float f c.low c.open_price) c.close);
    close = Ohlcv.Value.number c.close;
    volume = Ohlcv.Value.number (of_int c.volume);
  }
