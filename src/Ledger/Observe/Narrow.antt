-- ===== src/Ledger/Observe/Narrow.antt =====
-- internal/ledger/observe.go: the latest observation, the days before a narrower fresh window, and
-- the last day of a verified snapshot.
use where_token.Base.{
  select, Bool, not, ◌&&◌, ◌||◌, Option, none, some, List, [], ◌∷◌, ◌++◌, if◌then◌else◌, any_of,
  map,
}
use where_token.Base.Int.{pos, ltb_ℤ}
use where_token.Base.Text.{Text, bytes, text_eq, is_empty}
use where_token.Base.Dict.{Dict, member}
use where_token.Base.Order.{text_leb, text_ltb, sort_texts}
use where_token.Event.{UsageEvent, is_provider_api, is_retained}
use where_token.Event.Clock.{utc_day, is_zero_time}
use where_token.Ledger.Observe.{api_payload_hash, by_source_from}
use where_token.Ledger.Observe.Tables.{
  DayComp, is_blank, Observation, DayRow, Observations, dated_asc, observation_days, is_under,
}
use where_token.Ledger.Observe.Chain.{
  observations_asc, chain_day_map, listed, events_of, retained_event,
}

abbrev pub last_of {ℓ} : {A : Type ℓ} → List A → Option A
last_of [] = none
last_of (x ∷ xs) = elim (last_of xs) [ none ↦ some x | some y ↦ some y ]

-- tokens > 0
abbrev pub is_counted : Observation → Bool
is_counted o = ltb_ℤ (pos 0) o.tokens

unfoldable pub retained_days : Text → List DayComp → List UsageEvent
retained_days source [] = []
retained_days source (d ∷ ds) =
    let rest = retained_days source ds in
    if is_blank d then rest else retained_event source d.day d ∷ rest

abbrev pub days_of_latest : Text → List DayRow → Option Observation → List UsageEvent
days_of_latest source rows none = []
days_of_latest source rows (some o) =
    retained_days source (observation_days source o.payload_hash rows)

-- `LatestRetainedEvents`; no events stand for false
unfoldable pub latest_retained_events : Text → Observations → List UsageEvent
latest_retained_events source o =
    if is_empty source
    then []
    else days_of_latest source o.days
        (last_of (dated_asc source (select is_counted o.observations)))

-- `freshFrom`; the empty text where no event has a time
unfoldable pub fresh_from : Text → List UsageEvent → Text
fresh_from from [] = from
fresh_from from (e ∷ events) =
    let day = utc_day e.timestamp in
    fresh_from
      (if is_zero_time e.timestamp
        then from
        else if is_empty from || text_ltb day from
        then day
        else from)
      events

abbrev source_day : Text → Text → Text
source_day source day = source ++ (b'|' ∷ day)

-- an event that stands in `already`
unfoldable pub is_already : UsageEvent → Bool
is_already e =
    not (is_empty e.source)
    && not (is_zero_time e.timestamp)
    && (is_provider_api e.derivation || is_retained e.derivation)

unfoldable pub already_days : List UsageEvent → List Text
already_days events =
    map (λ e. source_day e.source (utc_day e.timestamp)) (select is_already events)

abbrev pub before_skipped : Text → Text → List Text → Text → Bool
before_skipped source from already day = text_leb from day || member (source_day source day) already

module _ (sha256_hex : Text → Text) where
  -- `daysBeforeFresh`
  unfoldable pub days_before_fresh :
      Text → List UsageEvent → List Text → Observations → List UsageEvent
  days_before_fresh source fresh already o =
      let from = fresh_from [] fresh in
      let days = chain_day_map (observations_asc source (api_payload_hash sha256_hex fresh) o) in
      if is_empty from
      then []
      else events_of (retained_event source) days
          (sort_texts (listed (before_skipped source from already) days))

  unfoldable pub supplement_sources :
      Dict (List UsageEvent) → List Text → Observations → List UsageEvent
  supplement_sources [] already o = []
  supplement_sources ((source, fresh) ∷ by) already o =
      days_before_fresh source fresh already o ++ supplement_sources by already o

  -- `SupplementNarrowWindow`; the sources, which Go takes in any order, come in that of the events
  unfoldable pub supplement_narrow_window : List UsageEvent → Observations → List UsageEvent
  supplement_narrow_window events o =
      events ++ supplement_sources (by_source_from [] events) (already_days events) o

unfoldable pub is_snapshot : Text → Observation → Bool
is_snapshot source o =
    text_eq o.source source
    && text_eq o.meta.origin (bytes "verified_snapshot")
    && text_eq o.meta.coverage (bytes "retained")

-- a day that joins a verified snapshot of the source
unfoldable pub of_snapshot : Text → List Observation → DayRow → Bool
of_snapshot source os r =
    any_of (λ o. is_snapshot source o && is_under r.source r.payload_hash o) os

abbrev later : Text → Text → Text
later s t = if text_leb s t then t else s

-- MAX, and COALESCE of none to the empty text
unfoldable pub max_day : List DayRow → Text
max_day [] = []
max_day (r ∷ rows) = later r.comp.day (max_day rows)

-- `VerifiedSnapshotLastDay`
unfoldable pub verified_snapshot_last_day : Text → Observations → Text
verified_snapshot_last_day source o = max_day (select (of_snapshot source o.observations) o.days)
