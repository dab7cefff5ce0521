-- ===== src/Ledger/Observe.antt =====
-- internal/ledger/observe.go: account-API observations, written. `Ledger.Observe.Chain` reads them.
pub mod Tables
pub mod Chain
pub mod Narrow
pub mod Audit
pub mod Save
pub mod Window
pub mod Note
pub mod Reach
pub mod Repeat
use where_token.Base.{
  select, ℕ, Bool, true, false, not, ◌&&◌, ◌||◌, Option, none, some, List, [], ◌∷◌, ◌++◌,
  if◌then◌else◌, length, is_some, map,
}
use where_token.Base.Int.{ℤ, pos, leb_ℤ}
use where_token.Base.Int64.{add64}
use where_token.Base.Text.{Text, bytes, is_empty}
use where_token.Base.Decimal.{format_int}
use where_token.Base.Dict.{Dict, get, put}
use where_token.Base.Order.{text_ltb, sort_by, sort_texts}
use where_token.Event.{Time, UsageEvent, unix_nano, is_provider_api}
use where_token.Event.Clock.{utc_day, rfc3339_nano, is_zero_time}
use where_token.Ledger.Store.{parser_version}
use Tables.{
  DayComp, day_sum, is_blank, Observation, ObservationMeta, Observations, insert_observation,
}

abbrev pub no_day : Text → DayComp
no_day day = record {
  day = day;
  miss = pos 0;
  cache_read = pos 0;
  cache_create = pos 0;
  output = pos 0;
}

-- the row of the event's day, with the event
abbrev pub add_event : UsageEvent → DayComp → DayComp
add_event e row = record {
  day = row.day;
  miss = add64 row.miss e.miss;
  cache_read = add64 row.cache_read e.cache_read;
  cache_create = add64 row.cache_create e.cache_create;
  output = add64 row.output e.output;
}

abbrev pub row_or_blank : Text → Option DayComp → DayComp
row_or_blank day none = no_day day
row_or_blank day (some row) = row

-- the loop's body of `groupDays`
abbrev pub group_event : UsageEvent → Dict DayComp → Dict DayComp
group_event e by =
    let day = utc_day e.timestamp in put day (add_event e (row_or_blank day (get day by))) by

unfoldable pub group_from : Dict DayComp → List UsageEvent → Dict DayComp
group_from by [] = by
group_from by (e ∷ events) =
    group_from (if is_zero_time e.timestamp then by else group_event e by) events

-- `groupDays`
unfoldable pub group_days : List UsageEvent → List DayComp
group_days events = sort_by (λ d. d.day) (map (λ entry. entry.1) (group_from [] events))

-- each line with its end
unfoldable pub lines_text : List Text → Text
lines_text [] = []
lines_text (line ∷ lines) = line ++ (b'\n' ∷ lines_text lines)

infixr 66 ◌bar◌
abbrev ◌bar◌ : Text → Text → Text
s bar t = s ++ (b'|' ∷ t)

unfoldable pub day_line : DayComp → Text
day_line d =
    d.day
    bar format_int d.miss
    bar format_int d.cache_read
    bar format_int d.cache_create
    bar format_int d.output

unfoldable pub event_line : UsageEvent → Text
event_line e =
    e.model
    bar format_int (unix_nano e.timestamp)
    bar format_int e.miss
    bar format_int e.cache_read
    bar format_int e.cache_create
    bar format_int e.output

unfoldable pub sum_days : ℤ → List DayComp → ℤ
sum_days tokens [] = tokens
sum_days tokens (d ∷ days) = sum_days (add64 tokens (day_sum d)) days

-- the first and the last day of a list in order
abbrev pub first_day : List DayComp → Text
first_day [] = []
first_day (d ∷ _) = d.day

unfoldable pub last_day : List DayComp → Text
last_day [] = []
last_day (d ∷ []) = d.day
last_day (_ ∷ d ∷ days) = last_day (d ∷ days)

abbrev pub is_none_of : List DayComp → Bool
is_none_of [] = true
is_none_of (_ ∷ _) = false

-- a day inside the window that counts something
unfoldable pub is_kept : Text → Text → DayComp → Bool
is_kept from to d = not (text_ltb d.day from || text_ltb to d.day) && not (is_blank d)

unfoldable pub is_api_event : UsageEvent → Bool
is_api_event e = is_provider_api e.derivation && not (is_empty e.source)

abbrev pub events_or_none : Option (List UsageEvent) → List UsageEvent
events_or_none none = []
events_or_none (some events) = events

-- the first loop of `NoteAPI`: the account-API events by source
unfoldable pub by_source_from : Dict (List UsageEvent) → List UsageEvent → Dict (List UsageEvent)
by_source_from by [] = by
by_source_from by (e ∷ events) =
    by_source_from
      (if is_api_event e then put e.source (events_or_none (get e.source by) ++ e ∷ []) by else by)
      events

unfoldable pub api_tokens : ℤ → List UsageEvent → ℤ
api_tokens tokens [] = tokens
api_tokens tokens (e ∷ events) =
    api_tokens (add64 tokens (add64 (add64 (add64 e.miss e.cache_read) e.cache_create) e.output))
      events

-- the window and the time of an observation made of days
unfoldable pub meta_of : Text → Text → Text → List DayComp → ObservationMeta
meta_of observed_at coverage origin days = record {
  observed_at = observed_at;
  window_from = first_day days;
  window_to = last_day days;
  coverage = coverage;
  origin = origin;
}

-- `observationFromAPI`, at the time `now`
unfoldable pub observation_from_api : Time → List UsageEvent → ObservationMeta × List DayComp
observation_from_api now events =
    let days = group_days events in
    (meta_of (rfc3339_nano now) (bytes "complete") (bytes "api") days, days)

module _ (sha256_hex : Text → Text) where
  -- `apiPayloadHash`
  unfoldable pub api_payload_hash : List UsageEvent → Text
  api_payload_hash events =
      sha256_hex (lines_text (sort_texts (map event_line (select is_api_event events))))

  abbrev pub note_source : Time → List UsageEvent → Text → Observations → Observations
  note_source now events source o =
      let (meta, days) = observation_from_api now events in
      insert_observation source (api_payload_hash events) (api_tokens (pos 0) events)
        (length events) parser_version meta days o

  unfoldable pub note_sources : Time → Dict (List UsageEvent) → Observations → Observations
  note_sources now [] o = o
  note_sources now ((source, events) ∷ by) o = note_sources now by (note_source now events source o)

  -- `NoteAPI`; the sources, which Go takes in any order, come in that of the events
  unfoldable pub note_api : Time → List UsageEvent → Observations → Observations
  note_api now events = note_sources now (by_source_from [] events)

  -- `SaveObservation`; `none` is the error
  unfoldable pub save_observation :
      Text → Text → Text → Time → List UsageEvent → Observations → Option Observations
  save_observation source origin coverage observed_at events o =
      if is_empty source || is_empty origin || is_empty coverage || is_zero_time observed_at
      then none
      else let days = group_days events in
        if is_none_of days
        then some o
        else let tokens = sum_days (pos 0) days in
          if leb_ℤ tokens (pos 0)
          then some o
          else some (
              insert_observation source (sha256_hex (lines_text (map day_line days))) tokens
                (length days) parser_version
                (meta_of (rfc3339_nano observed_at) coverage origin days) days o)

  abbrev pub window_hash : Text → Text → List DayComp → Text
  window_hash from to kept =
      sha256_hex (lines_text ((bytes "window" bar from bar to) ∷ map day_line kept))

  -- `NoteCoveredWindow`, at the time `now`; `none` is the error
  unfoldable pub note_covered_window :
      Time → Text → Text → Text → List UsageEvent → Observations → Option Observations
  note_covered_window now source from to events o =
      if is_empty source || is_empty from || is_empty to || text_ltb to from
      then none
      else let kept = select (is_kept from to) (group_days events) in
        some (
          insert_observation source (window_hash from to kept) (sum_days (pos 0) kept) (length kept)
            parser_version
            (record {
              observed_at = rfc3339_nano now;
              window_from = from;
              window_to = to;
              coverage = bytes "window";
              origin = bytes "api";
            })
            kept o)
