-- ===== src/Alerts/Stored.antt =====
-- The store of alerts over any run of requests: its bound, and the time between two alerts.
use data_service.Common.{
  ℕ, suc, ◌/◌, ◌≤◌, ◌≡◌, refl, subst, sym, String, true, Option, none, some, List, [], ◌∷◌, leb,
  if◌then◌else◌, String_discrete, arith, Bool-cases, inl, inr, length, All, All-map, ite,
}
use data_service.Common.Dict
use data_service.Quality.Score.{Grade}
use data_service.Alerts.{
  QualityAlert, QualityAlerter, Severity, is_duplicate, store_alert, new_alert, check_and_alert,
  resolve_alert, determine_severity, fire, resolve_found, tail,
}
use data_service.Alerts.Apart.{AreApart, Entries, IsApart, not_duplicate, snoc-IsApart, IsValid}

-- What `store_alert` keeps before it appends.
abbrev kept : QualityAlerter → Entries
kept s = if leb s.max_history (length s.alerts) then tail s.alerts else s.alerts

pub record CanTake (window room : ℕ) (P : String × QualityAlert → Type 0) (k : String) (d : Entries)
    : Type 0 where
  pub fits : suc (length d) ≤ room
  pub distinct : Dict.IsDistinct String_discrete d
  pub apart : IsApart window d
  pub every : All P d
  pub absent : Dict.get String_discrete k d ≡ none

tail-CanTake :
    (window room : ℕ) (P : String × QualityAlert → Type 0) (k : String) (d : Entries)
    → length d ≤ room
    → 1 ≤ room
    → Dict.IsDistinct String_discrete d
    → IsApart window d
    → All P d
    → Dict.get String_discrete k d ≡ none
    → CanTake window room P k (tail d)
unfolding tail
tail-CanTake window room P k [] b r u v h e = record {
  fits = r;
  distinct = tt;
  apart = tt;
  every = tt;
  absent = e;
}
tail-CanTake window room P k ((j, a) ∷ d) b r u v h e = record {
  fits = b;
  distinct = u.1;
  apart = v.1;
  every = h.1;
  absent = (Dict.get-cons_absent String_discrete k j a d e).1;
}

kept-CanTake :
    (s : QualityAlerter) (P : String × QualityAlert → Type 0) (k : String)
    → IsValid s
    → All P s.alerts
    → Dict.get String_discrete k s.alerts ≡ none
    → CanTake s.dedup_window_sec s.max_history P k (kept s)
kept-CanTake s P k v h e = elim (Bool-cases (leb s.max_history (length s.alerts))) [
  | inl full ↦ rw full (
      tail-CanTake s.dedup_window_sec s.max_history P k s.alerts v.bounded v.room v.distinct v.apart
        h e)
  | inr room ↦ rw room (record {
    fits = ground arith;
    distinct = v.distinct;
    apart = v.apart;
    every = h;
    absent = e;
  })
]

put-IsValid :
    (s : QualityAlerter) (a : QualityAlert) (d : Entries)
    → 1 ≤ s.max_history
    → CanTake s.dedup_window_sec s.max_history (λ e. AreApart s.dedup_window_sec e.1 a) a.alert_id d
    → IsValid (record s { alerts = Dict.put String_discrete a.alert_id a d })
put-IsValid s a d room c =
    let e = Dict.put_absent String_discrete a.alert_id a d c.absent in
    record {
      room = room;
      bounded =
          subst (λ l. length l ≤ s.max_history) (sym e)
            (subst (λ k. k ≤ s.max_history)
              (sym (Dict.length-snoc String_discrete (a.alert_id, a) d)) c.fits);
      distinct =
          subst (Dict.IsDistinct String_discrete) (sym e)
            (Dict.snoc-IsDistinct String_discrete a.alert_id a d c.absent c.distinct);
      apart =
          subst (IsApart s.dedup_window_sec) (sym e)
            (snoc-IsApart s.dedup_window_sec (a.alert_id, a) d c.every c.apart);
    }

fire-IsValid :
    (now : ℕ) (alert_id symbol : String) (score : ℕ) (grade : Grade) (o : Option Severity)
    (s : QualityAlerter)
    → IsValid s
    → Dict.get String_discrete alert_id s.alerts ≡ none
    → IsValid (fire now alert_id symbol score grade o s).0
unfolding fire store_alert
fire-IsValid now alert_id symbol score grade none s v e = v
fire-IsValid now alert_id symbol score grade (some severity) s v e =
    elim (Bool-cases (is_duplicate symbol severity s.dedup_window_sec now s.alerts)) [
      | inl dup ↦ rw dup v
      | inr fresh ↦
          let a = new_alert alert_id symbol severity grade score now in
          rw fresh (
            put-IsValid s a (kept s) v.room (
              kept-CanTake s (λ x. AreApart s.dedup_window_sec x.1 a) a.alert_id v
                (not_duplicate symbol alert_id severity grade s.dedup_window_sec now score s.alerts
                  fresh)
                e))
    ]

resolved_left : (window : ℕ) (a b : QualityAlert) → a.resolved ≡ true → AreApart window a b
resolved_left window a b h live = absurd (cc)

resolved_right : (window : ℕ) (a b : QualityAlert) → b.resolved ≡ true → AreApart window a b
resolved_right window a b h live live' = absurd (cc)

resolve-IsApart :
    (window : ℕ) (k : String) (a : QualityAlert) (d : Entries)
    → a.resolved ≡ true
    → IsApart window d
    → IsApart window (Dict.put String_discrete k a d)
unfolding Dict.put
resolve-IsApart window k a [] h v = (tt, tt)
resolve-IsApart window k a ((j, w) ∷ d) h v =
    elim (String_discrete j k)
      as (λ b. IsApart window (ite b ((k, a) ∷ d) ((j, w) ∷ Dict.put String_discrete k a d))) [
        | yes e ↦ (
          All-map _ (λ (x : String × QualityAlert). AreApart window a x.1) d
              (λ x _. resolved_left window a x.1 h) v.0,
          v.1,
        )
        | no e ↦ (
          Dict.All-put String_discrete (λ x. AreApart window w x.1) k a d
              (resolved_right window w a h) v.0,
          resolve-IsApart window k a d h v.1,
        )
      ]

resolve_found-IsValid :
    (now : ℕ) (k : String) (o : Option QualityAlert) (s : QualityAlerter)
    → Dict.get String_discrete k s.alerts ≡ o
    → IsValid s
    → IsValid (resolve_found now k o s).0
unfolding resolve_found
resolve_found-IsValid now k none s e v = v
resolve_found-IsValid now k (some a) s e v = elim (Bool-cases a.resolved) [
  | inl already ↦ rw already v
  | inr live ↦
      let a' = record a { resolved = true; resolved_at = some (now / 1000) } in
      rw live (record {
        room = v.room;
        bounded =
            subst (λ l. l ≤ s.max_history)
              (sym (Dict.length-put_present String_discrete k a' a s.alerts e)) v.bounded;
        distinct = Dict.put-IsDistinct String_discrete k a' s.alerts v.distinct;
        apart = resolve-IsApart s.dedup_window_sec k a' s.alerts refl v.apart;
      })
]

-- What is asked of the store, with the clock, and for a new alert its identifier.
pub data Request : Type 0 where
  check : ℕ → String → String → ℕ → Grade → Request
  resolve : ℕ → String → Request

unfoldable pub perform : Request → QualityAlerter → QualityAlerter
perform (check now alert_id symbol score grade) s =
    (check_and_alert now alert_id symbol score grade s).0
perform (resolve now alert_id) s = (resolve_alert now alert_id s).0

unfoldable pub serve : List Request → QualityAlerter → QualityAlerter
serve [] s = s
serve (r ∷ rest) s = serve rest (perform r s)

-- A new identifier is not in the store.
abbrev pub IsFresh : Request → QualityAlerter → Type 0
IsFresh (check now alert_id symbol score grade) s =
    Dict.get String_discrete alert_id s.alerts ≡ none
IsFresh (resolve now alert_id) s = Unit

abbrev pub AreFresh : List Request → QualityAlerter → Type 0
AreFresh [] s = Unit
AreFresh (r ∷ rest) s = IsFresh r s × AreFresh rest (perform r s)

perform-IsValid :
    (r : Request) (s : QualityAlerter) → IsFresh r s → IsValid s → IsValid (perform r s)
unfolding perform check_and_alert resolve_alert
perform-IsValid (check now alert_id symbol score grade) s f v =
    fire-IsValid now alert_id symbol score grade (determine_severity grade score) s v f
perform-IsValid (resolve now alert_id) s f v =
    resolve_found-IsValid now alert_id (Dict.get String_discrete alert_id s.alerts) s refl v

-- Whatever is asked of a valid store, if every new identifier is one that is not in it: the store never
-- holds more alerts than its bound, no identifier twice, and two unresolved alerts for one symbol
-- and severity were fired at least the deduplication window apart, also when the clock goes back
-- between them.
pub serve-IsValid :
    (rs : List Request) (s : QualityAlerter) → AreFresh rs s → IsValid s → IsValid (serve rs s)
unfolding serve
serve-IsValid [] s f v = v
serve-IsValid (r ∷ rest) s f v = serve-IsValid rest (perform r s) f.1 (perform-IsValid r s f.0 v)
