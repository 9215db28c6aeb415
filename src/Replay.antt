-- ===== src/Replay.antt =====
-- src/replay/replay_engine.py: the playback of stored ticks and the registry of sessions. What
-- happens at the awaits is an argument: whether each frame is delivered, and whether a stop has been
-- asked for and which speed is set when the loop comes to a tick. Speeds are whole, in thousandths.
pub mod Frames
pub mod Sessions
use data_service.Common.{
  ℕ, ◌-◌, ◌*◌, ◌/◌, ◌+◌, suc, String, Bool, true, false, ◌||◌, Option, none, some, List, [], ◌∷◌,
  ◌++◌, ltb, leb, if◌then◌else◌, Result, ok, err, length, is_empty,
}

-- A tick with its time, 0 where it has none.
pub record Tick (A : Type 0) : Type 0 where
  pub time : ℕ
  pub fields : A

-- What is sent; a tick goes out with all its fields, and the session's identifier beside them.
pub data Frame (A : Type 0) : Type 0 where
  session_start : ℕ → ℕ → Frame A
  tick_envelope : Tick A → Frame A
  session_stopped session_completed : ℕ → Frame A

pub record ReplayEngine (A : Type 0) : Type 0 where
  pub tick_data : List (Tick A)
  pub speed_multiplier : ℕ
  pub stop_requested : Bool
  pub playing : Bool
  pub ticks_sent : ℕ

pub data ReplayError : Type 0 where
  value_error : ReplayError

unfoldable pub init : {A : Type 0} → List (Tick A) → ℕ → Result ReplayError (ReplayEngine A)
init ticks speed =
    if leb speed 0
    then err value_error
    else ok (record {
      tick_data = ticks;
      speed_multiplier = speed;
      stop_requested = false;
      playing = false;
      ticks_sent = 0;
    })

unfoldable pub set_speed : {A : Type 0} → ℕ → ReplayEngine A → Result ReplayError (ReplayEngine A)
set_speed speed e =
    if leb speed 0 then err value_error else ok (record e { speed_multiplier = speed })

unfoldable pub stop : {A : Type 0} → ReplayEngine A → ReplayEngine A
stop e = record e { stop_requested = true }

-- What the loop meets at one tick: `stopping` at its test, the speed at its sleep, and whether the
-- frame that it sends is delivered.
pub record Turn : Type 0 where
  pub stopping : Bool
  pub speed : ℕ
  pub delivered : Bool

-- The frames that were delivered, the sleeps as milliseconds of the ticks' clock with the speed that
-- divides them, and the count of ticks.
pub record Playback (A : Type 0) : Type 0 where
  pub frames : List (Frame A)
  pub sleeps : List (ℕ × ℕ)
  pub ticks_sent : ℕ

-- The last frame of a playback.
pub ending : {A : Type 0} → Bool → Frame A → ℕ → Playback A
ending delivered f sent = record {
  frames = if delivered then f ∷ [] else [];
  sleeps = [];
  ticks_sent = sent;
}

-- A sleep only where the ticks' clock goes forward.
unfoldable pub pause : Option ℕ → ℕ → ℕ → List (ℕ × ℕ)
pause none time speed = []
pause (some before) time speed = if ltb before time then (time - before, speed) ∷ [] else []

-- What a tick adds in front of the rest of the playback.
pub with_tick : {A : Type 0} → Tick A → List (ℕ × ℕ) → Playback A → Playback A
with_tick t slept rest = record rest {
  frames = tick_envelope t ∷ rest.frames;
  sleeps = slept ++ rest.sleeps;
}

-- The loop, from a count of ticks sent and the time of the tick before. `end_delivered` is for the
-- frame at the natural end.
pub play_ticks : {A : Type 0} → Bool → ℕ → Option ℕ → List (Tick A × Turn) → Playback A
unfolding ending pause with_tick
play_ticks end_delivered sent prev [] = ending end_delivered (session_completed sent) sent
play_ticks end_delivered sent prev ((t, turn) ∷ rest) =
    let played = play_ticks end_delivered (suc sent) (some t.time) rest in
    let slept = pause prev t.time turn.speed in
    if turn.stopping
    then ending turn.delivered (session_stopped sent) sent
    else if turn.delivered
    then with_tick t slept played
    else record { frames = []; sleeps = slept; ticks_sent = sent }

-- The body of `replay` after its guard.
unfoldable pub play : {A : Type 0} → Bool → Bool → ℕ → List (Tick A × Turn) → Playback A
unfolding play_ticks
play start_delivered end_delivered speed turns =
    let played = play_ticks end_delivered 0 none turns in
    if start_delivered
    then record played { frames = session_start (length turns) speed ∷ played.frames }
    else record { frames = []; sleeps = []; ticks_sent = 0 }

-- A second call while one is playing sends nothing. The turns are those of the engine's ticks; an
-- empty dataset ends at once.
unfoldable pub replay :
    {A : Type 0}
    → Bool
    → Bool
    → List (Tick A × Turn)
    → ReplayEngine A
    → ReplayEngine A × List (Frame A)
unfolding play
replay start_delivered end_delivered turns e =
    if e.playing
    then (e, [])
    else let p = play start_delivered end_delivered e.speed_multiplier turns in
      (record e { playing = false; ticks_sent = p.ticks_sent }, p.frames)
