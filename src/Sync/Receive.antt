-- ===== src/Sync/Receive.antt =====
-- internal/hosted/store.go: SyncBatch stores a batch of a device once for each idempotency key. The
-- SHA-256 of the rows as JSON is the parameter `body_hash`; the times of the writes are left out.
pub mod Laws
use where_token.Base.{
  Bool, true, false, not, ◌&&◌, Option, none, some, List, [], ◌∷◌, ◌++◌, if◌then◌else◌, map,
}
use where_token.Base.Int.{ℤ, eqb_ℤ}
use where_token.Base.Text.{Text, text_eq, is_empty, trim_space}
use where_token.Sync.{SourceScope, same_scope, DailyModel}
use where_token.Sync.Batch.{Source, Batch}
use where_token.Sync.Store.{UsageRow, UsageError, apply_usage}

-- a row of `source_states`
pub record SourceState : Type 0 where
  pub user_id : ℤ
  pub device_id : ℤ
  pub source : Source

-- a row of `sync_revisions`
pub record SyncRevision : Type 0 where
  pub user_id : ℤ
  pub device_id : ℤ
  pub idempotency_key : Text
  pub body_hash : Text
  pub schema_version : ℤ

-- a row of `users`: its id and its time zone
pub record UserZone : Type 0 where
  pub id : ℤ
  pub timezone : Text

-- the tables that SyncBatch writes
pub record Hosted : Type 0 where
  pub usage : List UsageRow
  pub users : List UserZone
  pub states : List SourceState
  pub revisions : List SyncRevision

-- the arguments of SyncBatch: the user, the device, and the batch with the fields that Build copies
pub record SyncCall : Type 0 where
  pub user_id : ℤ
  pub device_id : ℤ
  pub idempotency_key : Text
  pub timezone : Text
  pub schema_version : ℤ
  pub batch : Batch

-- an error of ApplyUsage, or `ErrIdempotency`
pub data SyncError : Type 0 where
  usage_error : UsageError → SyncError
  key_reused : SyncError

-- SELECT body_hash FROM sync_revisions WHERE device_id=? AND idempotency_key=?
unfoldable pub find_revision : ℤ → Text → List SyncRevision → Option Text
find_revision device key [] = none
find_revision device key (r ∷ revisions) =
    let rest = find_revision device key revisions in
    if eqb_ℤ r.device_id device && text_eq r.idempotency_key key then some r.body_hash else rest

-- UPDATE users SET timezone=? WHERE id=?, with a time zone that is not blank
unfoldable pub set_zone : ℤ → Text → List UserZone → List UserZone
set_zone user timezone users =
    let zone = trim_space timezone in
    if is_empty zone
    then users
    else map (λ u. if eqb_ℤ u.id user then record u { timezone = zone } else u) users

-- the primary key of `source_states`
unfoldable pub same_state : ℤ → ℤ → Source → SourceState → Bool
same_state user device src s =
    eqb_ℤ s.user_id user
    && eqb_ℤ s.device_id device
    && text_eq s.source.tool src.tool
    && same_scope s.source.source_scope src.source_scope
    && text_eq s.source.source_key_hash src.source_key_hash

-- INSERT INTO source_states … ON DUPLICATE KEY UPDATE
unfoldable pub put_state : ℤ → ℤ → Source → List SourceState → List SourceState
put_state user device src [] = record { user_id = user; device_id = device; source = src } ∷ []
put_state user device src (s ∷ states) =
    let rest = put_state user device src states in
    if same_state user device src s
    then record s {
      source = record s.source {
        status = src.status;
        quality = src.quality;
        detected = src.detected;
      };
    }
      ∷ states
    else s ∷ rest

unfoldable pub put_states : ℤ → ℤ → List Source → List SourceState → List SourceState
put_states user device [] states = states
put_states user device (src ∷ sources) states =
    put_states user device sources (put_state user device src states)

module _ (body_hash : List DailyModel → Text) where
  -- the writes after ApplyUsage
  abbrev accepted : SyncCall → List UsageRow → Hosted → Hosted
  accepted c rows s = record {
    usage = rows;
    users = set_zone c.user_id c.timezone s.users;
    states = put_states c.user_id c.device_id c.batch.sources s.states;
    revisions =
        s.revisions
        ++ record {
          user_id = c.user_id;
          device_id = c.device_id;
          idempotency_key = c.idempotency_key;
          body_hash = body_hash c.batch.daily_model_usage;
          schema_version = c.schema_version;
        }
          ∷ [];
  }

  abbrev sync_new :
      SyncCall → Hosted → List UsageRow × Option UsageError → Hosted × Option SyncError
  sync_new c s (rows, none) = (accepted c rows s, none)
  sync_new c s (rows, some e) = (record s { usage = rows }, some (usage_error e))

  abbrev sync_found : SyncCall → Hosted → Option Text → Hosted × Option SyncError
  sync_found c s none =
      sync_new c s (apply_usage c.user_id c.device_id c.batch.daily_model_usage s.usage)
  sync_found c s (some existing) =
      if not (text_eq existing (body_hash c.batch.daily_model_usage))
      then (s, some key_reused)
      else (s, none)

  -- `SyncBatch`: the tables afterwards, and its error
  unfoldable pub sync_batch : SyncCall → Hosted → Hosted × Option SyncError
  sync_batch c s = sync_found c s (find_revision c.device_id c.idempotency_key s.revisions)

  -- calls in their order, whatever they return
  unfoldable pub sync_batches : List SyncCall → Hosted → Hosted
  sync_batches [] s = s
  sync_batches (c ∷ calls) s = sync_batches calls (sync_batch c s).0
