-- ===== src/Profile/Retain.antt =====
-- internal/publicprofile/retain.go: a retained observation of an account in place of the local rows
-- when its API cannot be read. sourceError is from coverage.go.
pub mod Laws
use where_token.Base.{
  ◌*◌, ◌==◌, Bool, true, false, not, ◌&&◌, ◌||◌, List, [], ◌∷◌, ◌++◌, if◌then◌else◌, Option, none,
  some, any_of, map,
}
use where_token.Base.Int.{ℤ, pos, eqb_ℤ, ◌+ℤ◌, ◌-ℤ◌}
use where_token.Base.Int64.{add64}
use where_token.Base.Text.{Text, bytes, text_eq, is_empty}
use where_token.Base.Dict.{member}
use where_token.Event.{Quality, Derivation, UsageEvent, is_provider_api, is_retained}
use where_token.Event.Clock.{day_start}
use where_token.Profile.Calendar.{parse_date, hour}

-- `ObservationDay`
pub record ObservationDay : Type 0 where
  pub day : Text
  pub miss : ℤ
  pub cache_read : ℤ
  pub cache_create : ℤ
  pub output : ℤ

-- what follows a prefix
unfoldable pub after_prefix : Text → Text → Option Text
after_prefix [] s = some s
after_prefix (_ ∷ _) [] = none
after_prefix (a ∷ p) (b ∷ s) = let rest = after_prefix p s in if a == b then rest else none

-- `sourceError`
unfoldable pub source_error : Text → List Text → Text
source_error id [] = []
source_error id (msg ∷ errs) =
    let rest = source_error id errs in
    elim (after_prefix (id ++ bytes ": ") msg) [ none ↦ rest | some s ↦ s ]

-- a fresh row of the account API
unfoldable pub is_fresh : Text → UsageEvent → Bool
is_fresh source e = text_eq e.source source && is_provider_api e.derivation

-- `AccountFetchFailed`
unfoldable pub account_fetch_failed : List UsageEvent → List Text → Text → Bool
account_fetch_failed events errs source =
    if any_of (is_fresh source) events then false else not (is_empty (source_error source errs))

unfoldable pub day_total : ObservationDay → ℤ
day_total d = add64 (add64 (add64 d.miss d.cache_read) d.cache_create) d.output

-- the row of one day, at noon
unfoldable pub day_event : Text → ObservationDay → UsageEvent
day_event source d = record {
  source = source;
  vendor = [];
  source_root = [];
  session_id = [];
  request_id = bytes "retained:" ++ d.day;
  model = [];
  provider = [];
  workspace = [];
  timestamp = day_start d.day +ℤ pos (12 * hour);
  miss = d.miss;
  cache_read = d.cache_read;
  cache_create = d.cache_create;
  output = d.output;
  reasoning = pos 0;
  quality = Quality.degraded;
  derivation = Derivation.retained_api;
  skip_request = true;
}

-- the two `continue`s of the loop
unfoldable pub is_left_out_day : ObservationDay → Bool
is_left_out_day d =
    eqb_ℤ (day_total d) (pos 0)
    || is_empty d.day
    || elim (parse_date d.day) [ none ↦ true | some _ ↦ false ]

-- `EventsFromDays`
unfoldable pub events_from_days : Text → List ObservationDay → List UsageEvent
events_from_days source [] = []
events_from_days source (d ∷ days) =
    let rest = events_from_days source days in
    if is_left_out_day d then rest else day_event source d ∷ rest

-- the sources of retained rows
unfoldable pub retained_sources : List UsageEvent → List Text
retained_sources [] = []
retained_sources (e ∷ events) =
    let rest = retained_sources events in
    if not (is_empty e.source) && is_retained e.derivation then e.source ∷ rest else rest

-- the counts of a local row are taken out
unfoldable pub without_counts : UsageEvent → UsageEvent
without_counts e = record e {
  miss = pos 0;
  cache_read = pos 0;
  cache_create = pos 0;
  output = pos 0;
  quality = Quality.other [];
  derivation = Derivation.other [];
}

unfoldable pub stripped : List Text → UsageEvent → UsageEvent
stripped sources e =
    if member e.source sources && not (is_retained e.derivation) then without_counts e else e

abbrev strip_or_keep : List Text → List UsageEvent → List UsageEvent → List UsageEvent
strip_or_keep [] events retained = events
strip_or_keep (s ∷ sources) events retained = map (stripped (s ∷ sources)) events ++ retained

-- `ApplyRetainedEvents`
unfoldable pub apply_retained_events : List UsageEvent → List UsageEvent → List UsageEvent
apply_retained_events events retained = strip_or_keep (retained_sources retained) events retained
