-- ===== src/Replay/Frames.antt =====
-- Which frames a playback delivers, and how long it sleeps.
use data_service.Common.{
  ℕ, suc, ◌+◌, ◌-◌, ◌≡◌, refl, ap, ◌∙◌, Bool, true, false, Option, none, some, List, [], ◌∷◌, ◌++◌,
  map, ltb, if◌then◌else◌, All, length, arith, Bool-cases, inl, inr,
}
use data_service.Replay.{
  Tick, Turn, Frame, session_start, tick_envelope, session_stopped, session_completed, play,
  play_ticks, pause, with_tick, ending,
}

-- The frames from one tick on: ticks in their order, then at most one frame that tells how many
-- were sent in all.
pub data IsPlayed {A : Type 0} : ℕ → List (Tick A) → ℕ → List (Frame A) → Type 0 where
  broken : (sent : ℕ) (ts : List (Tick A)) → IsPlayed sent ts sent []
  stopped : (sent : ℕ) (ts : List (Tick A)) → IsPlayed sent ts sent (session_stopped sent ∷ [])
  completed : (sent : ℕ) → IsPlayed sent [] sent (session_completed sent ∷ [])
  tick :
      {sent total : ℕ} {t : Tick A} {ts : List (Tick A)} {fs : List (Frame A)}
      → IsPlayed (suc sent) ts total fs
      → IsPlayed sent (t ∷ ts) total (tick_envelope t ∷ fs)

abbrev pub ticks_of : {A : Type 0} → List (Tick A × Turn) → List (Tick A)
ticks_of turns = map (λ x. x.0) turns

play_ticks-IsPlayed :
    {A : Type 0} (end_delivered : Bool) (sent : ℕ) (prev : Option ℕ) (turns : List (Tick A × Turn))
    → let p = play_ticks end_delivered sent prev turns in
      IsPlayed sent (ticks_of turns) p.ticks_sent p.frames
unfolding play_ticks ending with_tick
play_ticks-IsPlayed true sent prev [] = completed sent
play_ticks-IsPlayed false sent prev [] = broken sent []
play_ticks-IsPlayed end_delivered sent prev ((t, turn) ∷ rest) = elim (Bool-cases turn.stopping) [
  | inl halt ↦ elim (Bool-cases turn.delivered) [
    | inl sent_off ↦ rw (halt, sent_off) (stopped sent (t ∷ ticks_of rest))
    | inr lost ↦ rw (halt, lost) (broken sent (t ∷ ticks_of rest))
  ]
  | inr go ↦ elim (Bool-cases turn.delivered) [
    | inl sent_off ↦
        rw (go, sent_off) (tick (play_ticks-IsPlayed end_delivered (suc sent) (some t.time) rest))
    | inr lost ↦ rw (go, lost) (broken sent (t ∷ ticks_of rest))
  ]
]

-- Whatever is delivered, stopped or sped up on the way: a playback sends its start and then a prefix
-- of the dataset in order, without a gap or a repetition; at most one frame follows, that of a stop or,
-- only after the whole dataset, that of the end, and it tells how many ticks were sent, which is also
-- what the engine counts. If the start is lost, nothing is sent.
pub play-IsPlayed :
    {A : Type 0} (end_delivered : Bool) (speed : ℕ) (turns : List (Tick A × Turn))
    → let p = play true end_delivered speed turns in
      let lost = play false end_delivered speed turns in
      ((fs : List (Frame A)) × (p.frames ≡ session_start (length turns) speed ∷ fs)
        × IsPlayed 0 (ticks_of turns) p.ticks_sent fs)
      × (lost.frames ≡ [])
unfolding play
play-IsPlayed end_delivered speed turns =
    let played = play_ticks end_delivered 0 none turns in
    ((played.frames, refl, play_ticks-IsPlayed end_delivered 0 none turns), refl)

-- Nothing stops the playback or breaks the connection.
abbrev pub IsSmooth : {A : Type 0} → List (Tick A × Turn) → Type 0
IsSmooth turns = All (λ x. (x.1.stopping ≡ false) × (x.1.delivered ≡ true)) turns

-- From one tick to the next: how far the time goes forward, 0 for a step back, and the speed that is
-- set when the next one comes.
abbrev pub steps : {A : Type 0} → ℕ → List (Tick A × Turn) → List (ℕ × ℕ)
steps before [] = []
steps before ((t, turn) ∷ rest) = (t.time - before, turn.speed) ∷ steps t.time rest

-- The steps that do go forward.
abbrev pub positive : List (ℕ × ℕ) → List (ℕ × ℕ)
positive [] = []
positive ((ms, speed) ∷ rest) = if ltb 0 ms then (ms, speed) ∷ positive rest else positive rest

positive-pause :
    (before time speed : ℕ) (rest : List (ℕ × ℕ))
    → pause (some before) time speed ++ positive rest ≡ positive ((time - before, speed) ∷ rest)
unfolding pause
positive-pause before time speed rest = ground arith

smooth_frames :
    {A : Type 0} (sent : ℕ) (prev : Option ℕ) (turns : List (Tick A × Turn))
    → IsSmooth turns
    → let p = play_ticks true sent prev turns in
      (p.frames
        ≡ map tick_envelope (ticks_of turns) ++ session_completed (sent + length turns) ∷ [])
      × (p.ticks_sent ≡ sent + length turns)
unfolding play_ticks ending with_tick
smooth_frames sent prev [] h =
    let e : sent ≡ sent + 0 = omega arith in (ap (λ k. session_completed k ∷ []) e, e)
smooth_frames sent prev ((t, turn) ∷ rest) ((go, sent_off), h) =
    let (p, q) = smooth_frames (suc sent) (some t.time) rest h in
    let e : suc sent + length rest ≡ sent + suc (length rest) = omega arith in
    rw (go, sent_off)
      (
        ap (λ fs. tick_envelope t ∷ fs)
            (p ∙ ap (λ k. map tick_envelope (ticks_of rest) ++ session_completed k ∷ []) e),
        q ∙ e,
      )

smooth_sleeps :
    {A : Type 0} (sent before : ℕ) (turns : List (Tick A × Turn))
    → IsSmooth turns
    → (play_ticks true sent (some before) turns).sleeps ≡ positive (steps before turns)
unfolding play_ticks ending with_tick
smooth_sleeps sent before [] h = refl
smooth_sleeps sent before ((t, turn) ∷ rest) ((go, sent_off), h) =
    rw (go, sent_off)
      (ap (λ l. pause (some before) t.time turn.speed ++ l) (smooth_sleeps (suc sent) t.time rest h)
        ∙ positive-pause before t.time turn.speed (steps t.time rest))

first_sleeps :
    {A : Type 0} (t : Tick A) (turn : Turn) (rest : List (Tick A × Turn))
    → IsSmooth ((t, turn) ∷ rest)
    → (play_ticks true 0 none ((t, turn) ∷ rest)).sleeps ≡ positive (steps t.time rest)
unfolding play_ticks with_tick pause
first_sleeps t turn rest ((go, sent_off), h) = rw (go, sent_off) (smooth_sleeps 1 t.time rest h)

-- A playback that nothing stops delivers its start, every tick in order and its end, and counts every
-- tick. It sleeps once for each tick whose time is after that of the tick before, in their order: for
-- the milliseconds between the two, divided by the speed that is set when the later one comes.
pub play_complete :
    {A : Type 0} (speed : ℕ) (t : Tick A) (turn : Turn) (rest : List (Tick A × Turn))
    → IsSmooth ((t, turn) ∷ rest)
    → let turns = (t, turn) ∷ rest in
      let p = play true true speed turns in
      (p.frames
        ≡ session_start (length turns) speed
          ∷ (map tick_envelope (ticks_of turns) ++ session_completed (length turns) ∷ []))
      × (p.ticks_sent ≡ length turns)
      × (p.sleeps ≡ positive (steps t.time rest))
unfolding play
play_complete speed t turn rest h =
    let turns = (t, turn) ∷ rest in
    let (p, q) = smooth_frames 0 none turns h in
    let none_before : 0 + length turns ≡ length turns = omega arith in
    (
      ap (λ fs. session_start (length turns) speed ∷ fs)
          (p
            ∙ ap (λ k. map tick_envelope (ticks_of turns) ++ session_completed k ∷ []) none_before),
      q ∙ none_before,
      first_sleeps t turn rest h,
    )
