-- ===== src/Replay/Sessions.antt =====
-- src/replay/replay_engine.py: `ReplaySession` and the registry of sessions. The random identifier and
-- the clock are arguments. A session begins in no other state than CREATED.
use data_service.Common.{
  ℕ, ◌≡◌, ◌≢◌, ◌⊎◌, refl, sym, ◌∙◌, subst, String, Bool, true, false, ◌||◌, Option, none, some,
  List, [], ◌∷◌, leb, ltb, if◌then◌else◌, String_discrete, Result, ok, err, length, min, max, inl,
  inr, if_pos, if_neg,
}
use data_service.Common.Dict
use data_service.Replay.{Tick}

pub data ReplayStatus : Type 0 where
  created playing paused completed stopped : ReplayStatus

pub record ReplaySession : Type 0 where
  pub symbol : String
  pub start_ts : ℕ
  pub end_ts : ℕ
  pub speed_multiplier : ℕ
  pub status : ReplayStatus
  pub tick_count : ℕ
  pub ticks_sent : ℕ
  pub created_at : ℕ
  pub started_at : Option ℕ
  pub completed_at : Option ℕ

pub data SessionError : Type 0 where
  value_error validation_error : SessionError

abbrev pub Registry : Type 0
Registry = List (String × ReplaySession)

-- `min` and `max` of the ticks' times, from the first one on.
earliest : {A : Type 0} → ℕ → List (Tick A) → ℕ
earliest t [] = t
earliest t (u ∷ us) = earliest (min t u.time) us

latest : {A : Type 0} → ℕ → List (Tick A) → ℕ
latest t [] = t
latest t (u ∷ us) = latest (max t u.time) us

window : {A : Type 0} → ℕ → List (Tick A) → ℕ × ℕ
unfolding earliest latest
window now [] = (now, now)
window now (t ∷ ts) = (earliest t.time ts, latest t.time ts)

symbol_is_empty : String → Bool
symbol_is_empty String.[] = true
symbol_is_empty (String.◌∷◌ c s) = false

-- The model refuses an empty symbol and an end before the start.
unfoldable pub create_session :
    {A : Type 0}
    → ℕ
    → String
    → String
    → List (Tick A)
    → ℕ
    → Registry
    → Result SessionError (Registry × ReplaySession)
unfolding window symbol_is_empty
create_session now session_id symbol ticks speed registry =
    if leb speed 0
    then err value_error
    else let (start, end) = window now ticks in
      if symbol_is_empty symbol || ltb end start
      then err validation_error
      else let s : ReplaySession = record {
        symbol = symbol;
        start_ts = start;
        end_ts = end;
        speed_multiplier = speed;
        status = created;
        tick_count = length ticks;
        ticks_sent = 0;
        created_at = now;
        started_at = none;
        completed_at = none;
      } in
        ok (Dict.put String_discrete session_id s registry, s)

unfoldable pub get_session : String → Registry → Option ReplaySession
get_session session_id registry = Dict.get String_discrete session_id registry

-- `startedAt` is set the first time that a session plays, `completedAt` each time that it ends.
unfoldable pub started_after : ℕ → ReplayStatus → Option ℕ → Option ℕ
started_after now playing none = some now
started_after now status before = before

unfoldable pub completed_after : ℕ → ReplayStatus → Option ℕ → Option ℕ
completed_after now completed before = some now
completed_after now stopped before = some now
completed_after now status before = before

updated : ℕ → ReplayStatus → ReplaySession → ReplaySession
unfolding started_after completed_after
updated now status s = record s {
  status = status;
  started_at = started_after now status s.started_at;
  completed_at = completed_after now status s.completed_at;
}

update_found :
    ℕ → String → ReplayStatus → Option ReplaySession → Registry → Registry × Option ReplaySession
unfolding updated
update_found now session_id status none registry = (registry, none)
update_found now session_id status (some s) registry =
    let s' = updated now status s in (Dict.put String_discrete session_id s' registry, some s')

unfoldable pub update_session_status :
    ℕ → String → ReplayStatus → Registry → Registry × Option ReplaySession
unfolding update_found
update_session_status now session_id status registry =
    update_found now session_id status (Dict.get String_discrete session_id registry) registry

-- The updates of one session or of others, one after the other.
pub record Update : Type 0 where
  pub now : ℕ
  pub session_id : String
  pub status : ReplayStatus

unfoldable pub update_all : List Update → Registry → Registry
unfolding update_session_status
update_all [] registry = registry
update_all (u ∷ us) registry =
    update_all us (update_session_status u.now u.session_id u.status registry).0

-- The later state of one session: what was set when it was created stays, and so does the time of its
-- first start; a session that has ended keeps a time of its end.
pub record IsLater (a b : ReplaySession) : Type 0 where
  pub same_symbol : b.symbol ≡ a.symbol
  pub same_start : b.start_ts ≡ a.start_ts
  pub same_end : b.end_ts ≡ a.end_ts
  pub same_count : b.tick_count ≡ a.tick_count
  pub started_once : (a.started_at ≡ none) ⊎ (b.started_at ≡ a.started_at)
  pub ended : (a.completed_at ≡ none) ⊎ (b.completed_at ≢ none)

started_after-kept :
    (now : ℕ) (status : ReplayStatus) (o before : Option ℕ)
    → (before ≡ none) ⊎ (o ≡ before)
    → (before ≡ none) ⊎ (started_after now status o ≡ before)
unfolding started_after
started_after-kept now playing none before (inl e) = inl e
started_after-kept now playing none before (inr e) = inl (sym e)
started_after-kept now playing (some t) before h = h
started_after-kept now created o before h = h
started_after-kept now paused o before h = h
started_after-kept now completed o before h = h
started_after-kept now stopped o before h = h

completed_after-kept :
    (now : ℕ) (status : ReplayStatus) (o before : Option ℕ)
    → (before ≡ none) ⊎ (o ≢ none)
    → (before ≡ none) ⊎ (completed_after now status o ≢ none)
unfolding completed_after
completed_after-kept now completed o before h = inr (λ e. cc)
completed_after-kept now stopped o before h = inr (λ e. cc)
completed_after-kept now created o before h = h
completed_after-kept now playing o before h = h
completed_after-kept now paused o before h = h

updated-IsLater :
    (now : ℕ) (status : ReplayStatus) (a s : ReplaySession)
    → IsLater a s
    → IsLater a (updated now status s)
unfolding updated
updated-IsLater now status a s l = record {
  same_symbol = l.same_symbol;
  same_start = l.same_start;
  same_end = l.same_end;
  same_count = l.same_count;
  started_once = started_after-kept now status s.started_at a.started_at l.started_once;
  ended = completed_after-kept now status s.completed_at a.completed_at l.ended;
}

-- The session that the registry has under an identifier, later than the given one.
abbrev pub HasLater : String → ReplaySession → Registry → Type 0
HasLater k a registry = (s : ReplaySession) × (get_session k registry ≡ some s) × IsLater a s

found-HasLater :
    (now : ℕ) (j k : String) (status : ReplayStatus) (o : Option ReplaySession) (a : ReplaySession)
    (registry : Registry)
    → Dict.get String_discrete j registry ≡ o
    → HasLater k a registry
    → HasLater k a (update_found now j status o registry).0
unfolding update_found get_session
found-HasLater now j k status none a registry e h = h
found-HasLater now j k status (some t) a registry e (s, p, l) =
    let d = Dict.get-put String_discrete j k (updated now status t) registry in
    elim (String_discrete j k) [
      | yes same ↦
          let found = subst (λ x. Dict.get String_discrete x registry ≡ some t) same e in
          let one : t ≡ s = cc in
          (
            updated now status t,
            d ∙ if_pos (String_discrete j k) same _ _,
            updated-IsLater now status a t (subst (IsLater a) (sym one) l),
          )
      | no other ↦ (s, d ∙ if_neg (String_discrete j k) other _ _ ∙ p, l)
    ]

-- Any updates, of this session or of others, leave in the registry a session with the same symbol,
-- window and count of ticks; the time of its first start never changes once it is set, and a
-- session that has ended has a time of its end from then on.
pub update_all-HasLater :
    (us : List Update) (k : String) (a : ReplaySession) (registry : Registry)
    → HasLater k a registry
    → HasLater k a (update_all us registry)
unfolding update_all update_session_status
update_all-HasLater [] k a registry h = h
update_all-HasLater (u ∷ us) k a registry h =
    update_all-HasLater us k a (update_session_status u.now u.session_id u.status registry).0 (
      found-HasLater u.now u.session_id k u.status (Dict.get String_discrete u.session_id registry)
        a registry refl h)
