-- ===== src/Ledger/Observe/Chain.antt =====
-- internal/ledger/observe.go: what a scan reads back of the account-API observations.
pub mod Laws
pub mod Listing
pub mod Events
use where_token.Base.{
  select, ◌*◌, Bool, true, false, not, ◌&&◌, ◌||◌, Option, none, some, List, [], ◌∷◌, ◌++◌,
  if◌then◌else◌, any_of, map,
}
use where_token.Base.Int.{ℤ, pos, ltb_ℤ, ◌+ℤ◌}
use where_token.Base.Text.{Text, bytes, text_eq, is_empty}
use where_token.Base.Dict.{Dict, get, put, member}
use where_token.Base.Order.{text_leb, text_ltb, sort_by, sort_texts}
use where_token.Event.{Quality, Derivation, Time, UsageEvent, is_provider_api, is_retained}
use where_token.Event.Clock.{utc_day, day_start, is_zero_time}
use where_token.Profile.Calendar.{hour}
use where_token.Ledger.Observe.{is_api_event, api_payload_hash, by_source_from}
use where_token.Ledger.Observe.Tables.{
  DayComp, is_blank, Observation, Observations, dated_asc, observation_days, DayRow,
}

-- `storedObservation`
pub record StoredObservation : Type 0 where
  pub hash : Text
  pub from : Text
  pub to : Text
  pub days : List DayComp

-- `DayRange`
pub record DayRange : Type 0 where
  pub from : Text
  pub to : Text

abbrev pub stored : Text → List DayRow → Observation → StoredObservation
stored source rows o = record {
  hash = o.payload_hash;
  from = o.meta.window_from;
  to = o.meta.window_to;
  days = observation_days source o.payload_hash rows;
}

-- the AND payload_hash != ? of the query, which an empty text leaves out
abbrev pub is_not_excluded : Text → Observation → Bool
is_not_excluded exclude o = is_empty exclude || not (text_eq o.payload_hash exclude)

-- `observationsAsc`
unfoldable pub observations_asc : Text → Text → Observations → List StoredObservation
observations_asc source exclude o =
    map (stored source o.days) (dated_asc source (select (is_not_excluded exclude) o.observations))

-- Is the day in the span, both ends included?
unfoldable pub within : Text → Text → Text → Bool
within from to day = text_leb from day && text_leb day to

-- the guard of `chainDayMap` on a window
unfoldable pub is_window : StoredObservation → Bool
is_window ob = not (is_empty ob.from) && not (is_empty ob.to) && text_leb ob.from ob.to

-- the entries whose key passes no test: the loop of `delete`
unfoldable pub delete_where {ℓ} : {V : Type ℓ} → (Text → Bool) → Dict V → Dict V
delete_where p [] = []
delete_where p ((k, v) ∷ m) = let rest = delete_where p m in if p k then rest else (k, v) ∷ rest

unfoldable pub set_days : Dict DayComp → List DayComp → Dict DayComp
set_days days [] = days
set_days days (d ∷ ds) = set_days (if is_blank d then days else put d.day d days) ds

unfoldable pub chain_step : Dict DayComp → StoredObservation → Dict DayComp
chain_step days ob =
    set_days (if is_window ob then delete_where (within ob.from ob.to) days else days) ob.days

unfoldable pub chain_from : Dict DayComp → List StoredObservation → Dict DayComp
chain_from days [] = days
chain_from days (ob ∷ obs) = chain_from (chain_step days ob) obs

-- `chainDayMap`
unfoldable pub chain_day_map : List StoredObservation → Dict DayComp
chain_day_map = chain_from []

unfoldable pub is_inside : Text → DayRange → Bool
is_inside day r = not (is_empty r.from) && not (is_empty r.to) && within r.from r.to day

-- `dayInside`
unfoldable pub day_inside : Text → List DayRange → Bool
day_inside day = any_of (is_inside day)

unfoldable pub retained_event : Text → Text → DayComp → UsageEvent
retained_event source day d = record {
  source = source;
  vendor = [];
  source_root = [];
  session_id = [];
  request_id = bytes "retained:" ++ day;
  model = [];
  provider = [];
  workspace = [];
  timestamp = day_start day +ℤ pos (12 * hour);
  miss = d.miss;
  cache_read = d.cache_read;
  cache_create = d.cache_create;
  output = d.output;
  reasoning = pos 0;
  quality = Quality.degraded;
  derivation = Derivation.retained_api;
  skip_request = true;
}

-- the keys of the days that a test on the key leaves out no more than a blank row
unfoldable pub listed : (Text → Bool) → Dict DayComp → List Text
listed skipped [] = []
listed skipped ((day, d) ∷ days) =
    let rest = listed skipped days in if skipped day || is_blank d then rest else day ∷ rest

-- days[day], which is there for a listed day
abbrev pub of_day : (DayComp → UsageEvent) → Option DayComp → List UsageEvent
of_day event none = []
of_day event (some d) = event d ∷ []

-- the last loop of the readers: one event for each day, in order
unfoldable pub events_of :
    (Text → DayComp → UsageEvent) → Dict DayComp → List Text → List UsageEvent
events_of event days [] = []
events_of event days (day ∷ keys) = of_day (event day) (get day days) ++ events_of event days keys

-- the days of the events that already stand for the account
unfoldable pub is_present : Text → UsageEvent → Bool
is_present source e =
    text_eq e.source source
    && not (is_zero_time e.timestamp)
    && (is_provider_api e.derivation || is_retained e.derivation)

unfoldable pub present_days : Text → List UsageEvent → List Text
present_days source events = map (λ e. utc_day e.timestamp) (select (is_present source) events)

-- `finishedWindowsLocked`
unfoldable pub is_finished : Observation → Bool
is_finished o =
    not (is_empty o.meta.window_from)
    && not (is_empty o.meta.window_to)
    && text_eq o.meta.origin (bytes "api")
    && text_eq o.meta.coverage (bytes "window")
    && text_leb o.meta.window_from o.meta.window_to

-- `CoveredRanges`, on a source that is not empty `finishedWindowsLocked`
unfoldable pub covered_ranges : Text → Observations → List DayRange
covered_ranges source o =
    if is_empty source
    then []
    else map (λ ob. record { from = ob.meta.window_from; to = ob.meta.window_to })
        (dated_asc source (select is_finished o.observations))

abbrev pub skipped_day : Text → List DayRange → List UsageEvent → Text → Bool
skipped_day source ranges already day =
    member day (present_days source already) || day_inside day ranges

-- `DaysOutside`
unfoldable pub days_outside :
    Text → List DayRange → List UsageEvent → Observations → List UsageEvent
days_outside source ranges already o =
    let days = chain_day_map (observations_asc source [] o) in
    if is_empty source
    then []
    else events_of (retained_event source) days
        (sort_texts (listed (skipped_day source ranges already) days))

-- an API total of a window that was finished before
abbrev pub cached_event : Text → Text → DayComp → UsageEvent
cached_event source day d = record (retained_event source day d) {
  derivation = Derivation.provider_api;
  quality = Quality.authoritative;
  request_id = bytes "cursor-api:covered:" ++ day;
}

unfoldable pub is_cached : DayRange → List DayRange → Text → Bool
is_cached lookback finished day =
    not (is_empty lookback.from)
    && not (is_empty lookback.to)
    && text_leb lookback.from lookback.to
    && within lookback.from lookback.to day
    && day_inside day finished

unfoldable pub supplement_event : Text → DayRange → List DayRange → Text → DayComp → UsageEvent
supplement_event source lookback finished day d =
    if is_cached lookback finished day
    then cached_event source day d
    else retained_event source day d

-- `AccountSupplement`
unfoldable pub account_supplement :
    Text → DayRange → List DayRange → List UsageEvent → Observations → List UsageEvent
account_supplement source lookback fetched already o =
    let days = chain_day_map (observations_asc source [] o) in
    if is_empty source
    then []
    else events_of (supplement_event source lookback (covered_ranges source o)) days
        (sort_texts (listed (skipped_day source fetched already) days))

-- `ChainedRetainedEvents`; no events stand for false
unfoldable pub chained_retained_events : Text → Observations → List UsageEvent
chained_retained_events source o =
    let days = chain_day_map (observations_asc source [] o) in
    if is_empty source
    then []
    else events_of (retained_event source) days (sort_texts (listed (λ _. false) days))

-- `HasObservation`
unfoldable pub has_observation : Text → Observations → Bool
has_observation source o =
    if is_empty source
    then false
    else any_of (λ ob. text_eq ob.source source && not (is_empty ob.meta.observed_at))
        o.observations
