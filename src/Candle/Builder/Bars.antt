-- ===== src/Candle/Builder/Bars.antt =====
-- What a tick does to a candle that is a price bar, as the candle validator understands it.
use data_service.Common.{
  ℕ, ◌<◌, ◌≡◌, refl, true, Option, none, some, List, leb, arith, Bool-cases, inl, inr,
  if◌then◌else◌,
}
use data_service.Common.Int.{ℤ, pos, leb_ℤ, ◌≤ℤ◌}
use data_service.Common.Float.{Floats}
use data_service.Candle.{
  Tick, TickKey, CandleState, apply_tick, update_prices, use_price, is_member, update_oi, add_key,
  get_or, or_number,
}
use data_service.Validators.Ohlcv.{max_float, min_float}
use data_service.Validators.Ohlcv.Correct.{IsBar}

module _ (f : Floats) {R : Type 0} (dec : Discrete (TickKey R)) (round4 : f.Carrier → R)
    (pick : List (TickKey R) → List (TickKey R)) where
  open f use {Carrier, origin, lt, lt_irrefl, lt_trans}

  -- The prices that ticks bring are positive, and their volumes not below zero.
  abbrev pub IsPriced : Tick Carrier → Type 0
  IsPriced tick =
      ((x : Carrier) → tick.ltp ≡ some x → lt origin x ≡ true)
      × (pos 0 ≤ℤ get_or tick.volume (pos 0))

  abbrev pub IsTradedBar : CandleState Carrier R → Type 0
  IsTradedBar c = IsBar f c.open_price c.high c.low c.close × (pos 0 ≤ℤ c.volume)

  abbrev pub IsGood : CandleState Carrier R → Type 0
  IsGood c = 0 < c.tick_count → IsTradedBar c

  -- Taking in a higher or lower price keeps a bar a bar, and its last price becomes the close.
  widen-IsBar :
      (o h l c x : Carrier)
      → IsBar f o h l c
      → lt origin x ≡ true
      → IsBar f o (max_float f h x) (min_float f l x) x
  unfolding max_float min_float
  widen-IsBar o h l c x b p = ground (arith, lt_trans h x o, lt_trans o x l, lt_irrefl x)

  point-IsBar : (x : Carrier) → lt origin x ≡ true → IsBar f x x x x
  point-IsBar x p = ground (arith, lt_irrefl x)

  greatest-nonneg : (v w : ℤ) → pos 0 ≤ℤ v → pos 0 ≤ℤ w → pos 0 ≤ℤ (if leb_ℤ w v then v else w)
  greatest-nonneg v w hv hw = ground arith

  update_prices-IsGood :
      (x : Carrier) (volume : ℤ) (c : CandleState Carrier R)
      → lt origin x ≡ true
      → pos 0 ≤ℤ volume
      → IsGood c
      → IsTradedBar (update_prices f dec round4 pick x volume c)
  unfolding update_prices
  update_prices-IsGood x volume c p v good = elim (Bool-cases (leb c.tick_count 0)) [
    | inl first ↦ rw first (point-IsBar x p, v)
    | inr later ↦
        let (bar, w) = good (ground arith) in
        rw later (
          widen-IsBar c.open_price c.high c.low c.close x bar p,
          greatest-nonneg volume c.volume v w,
        )
  ]

  update_oi-IsTradedBar :
      (oi : Option ℕ) (c : CandleState Carrier R)
      → IsTradedBar c
      → IsTradedBar (update_oi f dec round4 pick oi c)
  unfolding update_oi
  update_oi-IsTradedBar none c b = b
  update_oi-IsTradedBar (some oi) c b = b

  use_price-IsGood :
      (tick : Tick Carrier) (ltp : Option Carrier) (c : CandleState Carrier R)
      → ((x : Carrier) → ltp ≡ some x → lt origin x ≡ true)
      → pos 0 ≤ℤ get_or tick.volume (pos 0)
      → IsGood c
      → IsGood (use_price f dec round4 pick tick ltp c).0
  unfolding use_price
  use_price-IsGood tick none c p v good = good
  use_price-IsGood tick (some x) c p v good =
      let volume = get_or tick.volume (pos 0) in
      let key : TickKey R =
        (get_or (or_number tick.exchange_ts_ms tick.event_time_ms) 0, round4 x, volume) in
      elim (Bool-cases (is_member dec key c.seen_tick_keys)) [
        | inl seen ↦ rw seen good
        | inr new ↦ rw new (λ counted.
            update_oi-IsTradedBar (or_number tick.oi tick.open_interest) _
              (update_prices-IsGood x volume (add_key f dec round4 pick key c) (p x refl) v good))
      ]

  pub apply_tick-IsGood :
      (tick : Tick Carrier)
      → IsPriced tick
      → (c : CandleState Carrier R) → IsGood c
      → IsGood (apply_tick f dec round4 pick tick c).0
  unfolding apply_tick
  apply_tick-IsGood tick p c good = use_price-IsGood tick tick.ltp c p.0 p.1 good
