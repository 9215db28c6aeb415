-- ===== src/MarketSession/Phases.antt =====
-- Phases within a minute.
use data_service.Common.{
  ℕ, ◌+◌, ◌≤◌, ◌<◌, ◌≡◌, ◌≢◌, refl, sym, ◌∙◌, ap, Bool, true, false, Bool-cases, inl, inr, arith,
  if◌then◌else◌, some,
}
use data_service.MarketSession.{
  SessionPhase, closed, MarketSessionEngine, minute, classify, local_phase, is_trading_date,
  is_half_day, classify_half_day, classify_normal_day, call_auction_end, pre_open_start,
  pre_open_end, post_market_end, regular_end, half_regular_end, half_post_market_end, end_of,
}

-- Two times at most a minute apart in the same phase have no other phase between them.
classify_flat :
    (b4 b5 s k m : ℕ)
    → call_auction_end + minute < b4
    → b4 + minute < b5
    → k ≤ m
    → m ≤ minute
    → classify b4 b5 (s + m) ≡ classify b4 b5 s
    → classify b4 b5 (s + k) ≡ classify b4 b5 s
unfolding classify
classify_flat b4 b5 s k m h4 h5 hk hm e = ground arith

-- The end of a phase, by the ends of the last two.
abbrev end_by : ℕ → ℕ → SessionPhase → ℕ
end_by b4 b5 SessionPhase.pre_open = pre_open_end
end_by b4 b5 SessionPhase.pre_open_call_auction = call_auction_end
end_by b4 b5 SessionPhase.regular = b4
end_by b4 b5 SessionPhase.post_market = b5
end_by b4 b5 SessionPhase.closed = pre_open_start
end_by b4 b5 SessionPhase.muhurat = 0

-- Where the phase changes within a minute, it changes once, at the end of the phase.
pub record IsCrossed (phase : ℕ → SessionPhase) (s b : ℕ) : Type 0 where
  pub after : s < b
  pub within : b ≤ s + minute
  pub changed : phase b ≢ phase s
  pub before : (x : ℕ) → s ≤ x → x < b → phase x ≡ phase s

classify_cross :
    (b4 b5 s : ℕ)
    → call_auction_end + minute < b4
    → b4 + minute < b5
    → classify b4 b5 (s + minute) ≢ classify b4 b5 s
    → IsCrossed (classify b4 b5) s (end_by b4 b5 (classify b4 b5 s))
unfolding classify
classify_cross b4 b5 s h4 h5 n = record {
  after = ground arith;
  within = ground arith;
  changed = λ q. ground arith;
  before = λ x le lt. ground arith;
}

abbrev last_ends : Bool → ℕ × ℕ
last_ends half = (
  if half then half_regular_end else regular_end,
  if half then half_post_market_end else post_market_end,
)

never_muhurat : (b4 b5 s : ℕ) → classify b4 b5 s ≢ SessionPhase.muhurat
unfolding classify
never_muhurat b4 b5 s = λ q. ground arith

end_of-usual :
    (half : Bool) (phase : SessionPhase)
    → phase ≢ SessionPhase.muhurat
    → end_of half phase ≡ some (end_by (last_ends half).0 (last_ends half).1 phase)
unfolding end_of
end_of-usual half SessionPhase.pre_open n = refl
end_of-usual half SessionPhase.pre_open_call_auction n = refl
end_of-usual half SessionPhase.regular n = refl
end_of-usual half SessionPhase.post_market n = refl
end_of-usual half SessionPhase.closed n = refl
end_of-usual half SessionPhase.muhurat n = absurd (n refl)

ends_apart :
    (half : Bool)
    → let (b4, b5) = last_ends half in (call_auction_end + minute < b4) × (b4 + minute < b5)
ends_apart true = (omega arith, omega arith)
ends_apart false = (omega arith, omega arith)

module _ (e : MarketSessionEngine) (date : ℕ) where
  abbrev ends : ℕ × ℕ
  ends = last_ends (is_half_day e date)

  local-classify :
      is_trading_date e date ≡ true → (s : ℕ) → local_phase e date s ≡ classify ends.0 ends.1 s
  unfolding local_phase classify_half_day classify_normal_day
  local-classify on s = elim (Bool-cases (is_half_day e date)) [
    | inl half ↦ rw (on, half) refl
    | inr full ↦ rw (on, full) refl
  ]

  local_off : is_trading_date e date ≡ false → (s : ℕ) → local_phase e date s ≡ closed
  unfolding local_phase
  local_off off s = rw off refl

  pub local_flat :
      (s k m : ℕ)
      → k ≤ m
      → m ≤ minute
      → local_phase e date (s + m) ≡ local_phase e date s
      → local_phase e date (s + k) ≡ local_phase e date s
  local_flat s k m hk hm h = elim (Bool-cases (is_trading_date e date)) [
    | inr off ↦ local_off off (s + k) ∙ sym (local_off off s)
    | inl on ↦
        let apart = ends_apart (is_half_day e date) in
        local-classify on (s + k)
        ∙ classify_flat ends.0 ends.1 s k m apart.0 apart.1 hk hm
            (sym (local-classify on (s + m)) ∙ h ∙ local-classify on s)
        ∙ sym (local-classify on s)
  ]

  local-IsCrossed :
      (on : is_trading_date e date ≡ true) (s b : ℕ)
      → IsCrossed (classify ends.0 ends.1) s b
      → IsCrossed (local_phase e date) s b
  local-IsCrossed on s b c = record {
    after = c.after;
    within = c.within;
    changed = λ q. c.changed (sym (local-classify on b) ∙ q ∙ local-classify on s);
    before = λ x le lt. local-classify on x ∙ c.before x le lt ∙ sym (local-classify on s);
  }

  -- A change within a minute is at the end of the phase before.
  pub local_cross :
      (s : ℕ)
      → local_phase e date (s + minute) ≢ local_phase e date s
      → (b : ℕ) × (end_of (is_half_day e date) (local_phase e date s) ≡ some b)
        × IsCrossed (local_phase e date) s b
  local_cross s n = elim (Bool-cases (is_trading_date e date)) [
    | inr off ↦ absurd (n (local_off off (s + minute) ∙ sym (local_off off s)))
    | inl on ↦
        let apart = ends_apart (is_half_day e date) in
        (
          end_by ends.0 ends.1 (classify ends.0 ends.1 s),
          ap (end_of (is_half_day e date)) (local-classify on s)
              ∙ end_of-usual (is_half_day e date) (classify ends.0 ends.1 s)
                  (never_muhurat ends.0 ends.1 s),
          local-IsCrossed on s _ (
              classify_cross ends.0 ends.1 s apart.0 apart.1
                (λ q. n (local-classify on (s + minute) ∙ q ∙ sym (local-classify on s)))),
        )
  ]

  pub local_late : (s : ℕ) → post_market_end ≤ s → local_phase e date s ≡ closed
  unfolding local_phase classify_half_day classify_normal_day classify
  local_late s h = ground arith

  pub local_early : (s : ℕ) → s < pre_open_start → local_phase e date s ≡ closed
  unfolding local_phase classify_half_day classify_normal_day classify
  local_early s h = ground arith
