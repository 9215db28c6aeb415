-- ===== src/Quality/Freshness/Ageing.antt =====
-- What time does to the freshness of data.
use data_service.Common.{
  ℕ, ◌-◌, ◌*◌, ◌≤◌, ◌<◌, ◌≡◌, ◌⊎◌, inl, inr, refl, String, Bool, false, Option, none, some, List,
  ok, arith,
}
use data_service.Common.Case.{codes, lower, same_codes}
use data_service.Quality.Freshness.{
  classify, classify_live, band, band_in, age_us, Thresholds, FreshnessStatus, fresh, ageing, stale,
  expired, unknown, classify_by, find, Table, india_interval_thresholds, table_of,
}

-- How old a status says that data are; what is unknown stays so.
abbrev pub rank : FreshnessStatus → ℕ
rank fresh = 0
rank ageing = 1
rank stale = 2
rank expired = 3
rank unknown = 4

band_mono : (t : Thresholds) (a b : ℕ) → a ≤ b → rank (band t a) ≤ rank (band t b)
unfolding band
band_mono t a b h = ground arith

band_in_mono : (t : Option Thresholds) (a b : ℕ) → a ≤ b → rank (band_in t a) ≤ rank (band_in t b)
unfolding band_in
band_in_mono none a b h = omega arith
band_in_mono (some t) a b h = band_mono t a b h

classify_by_mono :
    (t : Option Table) (key : List ℕ) (a b : ℕ)
    → a ≤ b
    → rank (classify_by t key a) ≤ rank (classify_by t key b)
unfolding classify_by
classify_by_mono none key a b h = omega arith
classify_by_mono (some t) key a b h = band_in_mono (find key t) a b h

-- Waiting never makes data fresher: of the same candle, if it is classified at all, and of the same live
-- quote, a later reading of the clock never gives a fresher status than an earlier one.
pub classify_mono :
    (now later timestamp event : ℕ) (market interval tier : String) (regular : Bool)
    (a b : FreshnessStatus)
    → now ≤ later
    → classify now timestamp market interval ≡ ok a
    → classify later timestamp market interval ≡ ok b
    → (rank a ≤ rank b)
      × (rank (classify_live now event tier regular)
          ≤ rank (classify_live later event tier regular))
unfolding classify classify_live age_us
classify_mono now later timestamp event market interval tier regular a b h p q = (
  ground (
    arith,
    classify_by_mono (table_of (lower market)) (lower interval) (now - timestamp)
        (later - timestamp),
  ),
  band_mono _ (now - event * 1000) (later - event * 1000) (omega arith),
)

lower-ne : (s : String) → same_codes (codes "1M") (lower s) ≡ false
unfolding same_codes lower
lower-ne String.[] = refl
lower-ne (String.◌∷◌ c String.[]) = ground arith
lower-ne (String.◌∷◌ c (String.◌∷◌ d s)) = ground arith

row_bound :
    (key : List ℕ) (t : Thresholds)
    → same_codes (codes "1M") key ≡ false
    → find key india_interval_thresholds ≡ some t
    → (t.fresh_sec ≤ 604800) × (t.stale_sec ≤ 1209600)
unfolding find
row_bound key t h e = ground arith

old_band :
    (t : Thresholds) (age : ℕ)
    → t.fresh_sec * 1000000 < age
    → t.stale_sec * 1000000 < age
    → band t age ≡ expired
unfolding band
old_band t age p q = ground arith

old_find :
    (key : List ℕ) (age : ℕ)
    → same_codes (codes "1M") key ≡ false
    → 1209600 * 1000000 < age
    → (o : Option Thresholds) → find key india_interval_thresholds ≡ o
    → (band_in o age ≡ expired) ⊎ (band_in o age ≡ unknown)
unfolding band_in
old_find key age h old none e = inr refl
old_find key age h old (some t) e =
    let bound = row_bound key t h e in inl (old_band t age (omega arith) (omega arith))

old_india :
    (key : List ℕ) (age : ℕ)
    → same_codes (codes "1M") key ≡ false
    → 1209600 * 1000000 < age
    → (classify_by (some india_interval_thresholds) key age ≡ expired)
      ⊎ (classify_by (some india_interval_thresholds) key age ≡ unknown)
unfolding classify_by
old_india key age h old = old_find key age h old (find key india_interval_thresholds) refl

-- No Indian dataset that is older than fourteen days is fresh or stale, whatever its interval is: it
-- is refused, expired or unknown. So the row of monthly candles, which calls them fresh for thirty
-- days, is never used: every name is put into lower case first.
pub classify-monthly :
    (now timestamp : ℕ) (interval : String) (status : FreshnessStatus)
    → 1209600 * 1000000 < now - timestamp
    → classify now timestamp "india" interval ≡ ok status
    → (status ≡ expired) ⊎ (status ≡ unknown)
unfolding classify age_us table_of lower same_codes
classify-monthly now timestamp interval status old h =
    ground (arith, old_india (lower interval) (now - timestamp) (lower-ne interval))
