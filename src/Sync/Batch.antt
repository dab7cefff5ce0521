-- ===== src/Sync/Batch.antt =====
-- internal/syncagg/batch.go: Build adds the events of a device up by day, tool, scope and model. Loc
-- is a zone of fixed minutes; the fields of a batch that are copied from the input are left out.
pub mod Finish
pub mod Rows
pub mod Keys
pub mod Sums
use where_token.Base.{
  ℕ, Bool, true, false, not, ◌&&◌, ◌||◌, Option, none, some, List, [], ◌∷◌, ◌++◌, if◌then◌else◌,
  map, any_of,
}
use where_token.Base.Int.{ℤ, pos, ltb_ℤ, max_ℤ}
use where_token.Base.Int64.{add64}
use where_token.Base.Text.{Text, bytes, text_eq, is_empty, trim_space}
use where_token.Base.Dict.{Dict, get, put, member}
use where_token.Base.Order.{text_ltb}
use where_token.Event.{
  Quality, Derivation, Time, UsageEvent, TurnEvent, quality_text, derivation_text, is_provider_api,
}
use where_token.Event.Clock.{is_zero_time, instant_of}
use where_token.Profile.Calendar.{date_of, format_date}
use where_token.Sync.{
  SourceScope, device_local, account_global, same_scope, scope_text, scope_of, source_key_hash,
  DailyModel,
}
use where_token.Sync.Store.{same_daily}

-- `SourceInput`
pub record SourceInput : Type 0 where
  pub tool : Text
  pub detected : Bool
  pub status : Text
  pub quality : Text

-- `Source`
pub record Source : Type 0 where
  pub tool : Text
  pub detected : Bool
  pub status : Text
  pub quality : Text
  pub source_scope : SourceScope
  pub source_key_hash : Text

-- `BuildInput`; `loc` is none where Loc is nil
pub record BuildInput : Type 0 where
  pub device_id : Text
  pub loc : Option ℤ
  pub user_hash_key : Text
  pub account_stable_id : Dict Text
  pub revision : ℤ
  pub events : List UsageEvent
  pub turns : List TurnEvent
  pub sources : List SourceInput

-- `Batch`
pub record Batch : Type 0 where
  pub sources : List Source
  pub daily_model_usage : List DailyModel

abbrev has_no_quality : Quality → Bool
has_no_quality q = is_empty (quality_text q)

abbrev has_no_derivation : Derivation → Bool
has_no_derivation d = is_empty (derivation_text d)

-- `maxEvent` of this package
unfoldable pub batch_max_event : UsageEvent → UsageEvent → UsageEvent
batch_max_event a b = record a {
  miss = max_ℤ a.miss b.miss;
  cache_read = max_ℤ a.cache_read b.cache_read;
  cache_create = max_ℤ a.cache_create b.cache_create;
  output = max_ℤ a.output b.output;
  skip_request = a.skip_request || b.skip_request;
  derivation = if has_no_derivation a.derivation then b.derivation else a.derivation;
  quality = if has_no_quality a.quality then b.quality else a.quality;
}

abbrev request_key : UsageEvent → Text
request_key e = e.source ++ (0 ∷ e.request_id)

-- the event of the same request that `index` points to, raised, or a new event at the end
unfoldable pub merge_into : UsageEvent → List UsageEvent → List UsageEvent
merge_into e [] = e ∷ []
merge_into e (m ∷ out) =
    let rest = merge_into e out in
    if not (is_empty m.request_id) && text_eq (request_key m) (request_key e)
    then batch_max_event m e ∷ out
    else m ∷ rest

unfoldable pub batch_merge_from : List UsageEvent → List UsageEvent → List UsageEvent
batch_merge_from out [] = out
batch_merge_from out (e ∷ events) =
    batch_merge_from (if is_empty e.request_id then out ++ e ∷ [] else merge_into e out) events

-- `mergeByRequest` of this package
abbrev pub batch_merge : List UsageEvent → List UsageEvent
batch_merge = batch_merge_from []

abbrev text_or_empty : Option Text → Text
text_or_empty none = []
text_or_empty (some s) = s

-- t.In(loc).Format("2006-01-02")
unfoldable pub local_day : ℤ → Time → Text
local_day zone t = format_date (date_of (record { instant = instant_of t; zone = zone }))

-- the loop's outcome for one event: left out, an error of Build, or the row that its counts go to
pub data RowOutcome : Type 0 where
  left_out failed : RowOutcome
  keyed : DailyModel → RowOutcome

-- a row without counts, as the loop makes it
abbrev pub new_daily : Text → Text → ℤ → UsageEvent → DailyModel
new_daily date hash revision e = record {
  date = date;
  tool = e.source;
  source_scope = scope_of e;
  source_key_hash = hash;
  vendor = e.vendor;
  model = e.model;
  miss = pos 0;
  cache_read = pos 0;
  cache_create = pos 0;
  output = pos 0;
  requests = pos 0;
  user_turns = pos 0;
  quality = quality_text e.quality;
  derivation = derivation_text e.derivation;
  revision = revision;
}

abbrev is_authoritative : Quality → Bool
is_authoritative Quality.authoritative = true
is_authoritative _ = false

unfoldable pub add_counts : DailyModel → UsageEvent → DailyModel
add_counts r e = record r {
  miss = add64 r.miss e.miss;
  cache_read = add64 r.cache_read e.cache_read;
  cache_create = add64 r.cache_create e.cache_create;
  output = add64 r.output e.output;
  requests = if e.skip_request then r.requests else add64 r.requests (pos 1);
  quality = if is_authoritative e.quality then quality_text e.quality else r.quality;
  derivation = if is_provider_api e.derivation then derivation_text e.derivation else r.derivation;
}

-- the counts of an event go to the row with the key of a fresh row, or to that row
unfoldable pub add_daily : DailyModel → UsageEvent → List DailyModel → List DailyModel
add_daily fresh e [] = add_counts fresh e ∷ []
add_daily fresh e (r ∷ rows) =
    let rest = add_daily fresh e rows in
    if same_daily r fresh then add_counts r e ∷ rows else r ∷ rest

module _ (hmac_hex : Text → Text → Text) (i : BuildInput) (zone : ℤ) where
  -- `hashFor`
  unfoldable pub hash_for : Text → SourceScope → Option Text
  hash_for tool device_local =
      source_key_hash hmac_hex i.user_hash_key tool device_local i.device_id
  hash_for tool account_global =
      let stable = trim_space (text_or_empty (get tool i.account_stable_id)) in
      if is_empty stable
      then none
      else source_key_hash hmac_hex i.user_hash_key tool account_global stable

  abbrev unhashed : SourceScope → RowOutcome
  unhashed account_global = left_out
  unhashed device_local = failed

  unfoldable pub row_of : UsageEvent → RowOutcome
  row_of e = elim (hash_for e.source (scope_of e)) [
    | none ↦ unhashed (scope_of e)
    | some hash ↦
        if is_zero_time e.timestamp
        then left_out
        else keyed (new_daily (local_day zone e.timestamp) hash i.revision e)
  ]

  -- the loop over the merged events; `none` is the error
  unfoldable pub rows_from : List DailyModel → List UsageEvent → Option (List DailyModel)
  rows_from rows [] = some rows
  rows_from rows (e ∷ events) = elim (row_of e) [
    | failed ↦ none
    | left_out ↦ rows_from rows events
    | keyed fresh ↦ rows_from (add_daily fresh e rows) events
  ]

  abbrev turn_key : Text → Text → Text → Text
  turn_key tool hash date = scope_text device_local ++ (0 ∷ tool ++ (0 ∷ hash ++ (0 ∷ date)))

  abbrev count_or_zero : Option ℤ → ℤ
  count_or_zero none = pos 0
  count_or_zero (some n) = n

  -- the loop over the turns
  unfoldable pub count_turns : Dict ℤ → List TurnEvent → Option (Dict ℤ)
  count_turns counts [] = some counts
  count_turns counts (t ∷ turns) =
      let skip = count_turns counts turns in
      if is_zero_time t.timestamp || is_empty t.source
      then skip
      else elim (hash_for t.source device_local) [
        | none ↦ none
        | some hash ↦
            let k = turn_key t.source hash (local_day zone t.timestamp) in
            count_turns (put k (add64 (count_or_zero (get k counts)) (pos 1)) counts) turns
      ]

  abbrev with_turns : Dict ℤ → DailyModel → DailyModel
  with_turns counts r =
      if same_scope r.source_scope device_local
      then record r {
        user_turns = count_or_zero (get (turn_key r.tool r.source_key_hash r.date) counts);
      }
      else r

  -- the first guards of `Build`, and its loops before the sort
  unfoldable pub daily_rows : Option (List DailyModel)
  daily_rows = elim (rows_from [] (batch_merge i.events)) [
    | none ↦ none
    | some rows ↦ elim (count_turns [] i.turns) [
      | none ↦ none
      | some counts ↦ some (map (with_turns counts) rows)
    ]
  ]
