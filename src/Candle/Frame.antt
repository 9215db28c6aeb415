-- ===== src/Candle/Frame.antt =====
-- What a tick leaves alone in its candle.
use data_service.Common.{ℕ, ◌≡◌, refl, Option, none, some, List, leb, Bool-cases, inl, inr}
use data_service.Common.Int.{ℤ, pos}
use data_service.Common.Float.{Floats}
use data_service.Candle.{
  Tick, TickKey, CandleState, apply_tick, use_price, is_member, get_or, or_number, update_prices,
  update_oi, add_key,
}

-- The same instrument, interval and opening time, and the same marks of the finalisation.
pub record IsSameSlot {A R : Type 0} (c c' : CandleState A R) : Type 0 where
  pub instrument : c.instrument_id ≡ c'.instrument_id
  pub interval : c.interval ≡ c'.interval
  pub time : c.candle_time_ms ≡ c'.candle_time_ms
  pub finalised : c.finalised ≡ c'.finalised
  pub available : c.available_at_ms ≡ c'.available_at_ms
  pub ingestion : c.ingestion_time_ms ≡ c'.ingestion_time_ms

same_slot : {A R : Type 0} (c : CandleState A R) → IsSameSlot c c
same_slot c = record {
  instrument = refl;
  interval = refl;
  time = refl;
  finalised = refl;
  available = refl;
  ingestion = refl;
}

module _ (f : Floats) {R : Type 0} (dec : Discrete (TickKey R)) (round4 : f.Carrier → R)
    (pick : List (TickKey R) → List (TickKey R)) where
  open f use {Carrier}

  update_prices-IsSameSlot :
      (x : Carrier) (volume : ℤ) (c : CandleState Carrier R)
      → IsSameSlot (update_prices f dec round4 pick x volume c) c
  unfolding update_prices
  update_prices-IsSameSlot x volume c = elim (Bool-cases (leb c.tick_count 0)) [
    | inl first ↦ rw first (record {
      instrument = refl;
      interval = refl;
      time = refl;
      finalised = refl;
      available = refl;
      ingestion = refl;
    })
    | inr later ↦ rw later (record {
      instrument = refl;
      interval = refl;
      time = refl;
      finalised = refl;
      available = refl;
      ingestion = refl;
    })
  ]

  update_oi-IsSameSlot :
      (oi : Option ℕ) (c c' : CandleState Carrier R)
      → IsSameSlot c c'
      → IsSameSlot (update_oi f dec round4 pick oi c) c'
  unfolding update_oi
  update_oi-IsSameSlot none c c' h = h
  update_oi-IsSameSlot (some oi) c c' h = record {
    instrument = h.instrument;
    interval = h.interval;
    time = h.time;
    finalised = h.finalised;
    available = h.available;
    ingestion = h.ingestion;
  }

  use_price-IsSameSlot :
      (tick : Tick Carrier) (ltp : Option Carrier) (c : CandleState Carrier R)
      → IsSameSlot (use_price f dec round4 pick tick ltp c).0 c
  unfolding use_price
  use_price-IsSameSlot tick none c = same_slot _
  use_price-IsSameSlot tick (some x) c =
      let volume = get_or tick.volume (pos 0) in
      let key : TickKey R =
        (get_or (or_number tick.exchange_ts_ms tick.event_time_ms) 0, round4 x, volume) in
      elim (Bool-cases (is_member dec key c.seen_tick_keys)) [
        | inl seen ↦ rw seen (same_slot _)
        | inr new ↦
            let keyed = add_key f dec round4 pick key c in
            let priced = update_prices-IsSameSlot x volume keyed in
            let updated =
              update_oi-IsSameSlot (or_number tick.oi tick.open_interest) _ keyed priced in
            rw new (record {
              instrument = updated.instrument;
              interval = updated.interval;
              time = updated.time;
              finalised = updated.finalised;
              available = updated.available;
              ingestion = updated.ingestion;
            })
      ]

  pub apply_tick-IsSameSlot :
      (tick : Tick Carrier) (c : CandleState Carrier R)
      → IsSameSlot (apply_tick f dec round4 pick tick c).0 c
  unfolding apply_tick
  apply_tick-IsSameSlot tick c = use_price-IsSameSlot tick tick.ltp c
