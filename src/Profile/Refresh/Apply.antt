-- ===== src/Profile/Refresh/Apply.antt =====
-- internal/publicprofile/refresh_apply.go: one refresh attempt of a client. The hosted API answers
-- from the calls made before; `validate`, `marshal` and `sensitive` are those of the package.
pub mod Laws
pub mod Verified
use where_token.Base.{
  ℕ, zero, suc, ◌+◌, Bool, true, false, not, ◌&&◌, ◌||◌, Option, none, some, List, [], ◌∷◌, ◌++◌,
  if◌then◌else◌, leb, ◌==◌,
}
use where_token.Base.Int.{pos}
use where_token.Base.Text.{Text, bytes, text_eq, is_empty}
use where_token.Profile.Snapshot.{Snapshot}
use where_token.Profile.Labels.{Action, Code, Phase, Label}
use where_token.Profile.Calendar.{Time}
use where_token.Profile.Publish.{Permit, VerifiedWall, PendingIntent}
use where_token.Profile.Refresh.{
  Decision, RefreshInput, skipped, published_usage, failed_refresh, decide_refresh,
}

pub record RemoteView : Type 0 where
  pub found : Bool
  pub snapshot : Snapshot
  pub updated_at : Time
  pub wall_known : Bool
  pub wall : VerifiedWall
  pub pending : PendingIntent

pub record PutResult : Type 0 where
  pub status : ℕ
  pub kept_previous : Bool
  pub readme : Text
  pub reason : Text

-- the result of Fetch: ErrNotSignedIn, another error, or the view
pub data Fetched : Type 0 where
  not_signed_in failed : Fetched
  view : RemoteView → Fetched

-- a call of the hosted API
pub data Call : Type 0 where
  fetch : Call
  put : Text → Call

-- `RefreshPublisher`: what it answers, from the calls made before; none is an error
pub record Publisher : Type 0 where
  pub fetched : List Call → Fetched
  pub uploaded : List Call → Text → Option PutResult

pub record ApplyResult : Type 0 where
  pub decision : Option Decision
  pub rejected : Bool
  pub transport : Bool
  pub already : Bool
  pub auth : Bool

-- `ApplyResult{Decision: d}`
abbrev pub decided : Decision → ApplyResult
decided d = record {
  decision = some d;
  rejected = false;
  transport = false;
  already = false;
  auth = false;
}

-- `ApplyResult{Auth: true}`
abbrev pub signed_out : ApplyResult
signed_out = record {
  decision = none;
  rejected = false;
  transport = false;
  already = false;
  auth = true;
}

unfoldable pub decision_after_put : Decision → Text → Decision
decision_after_put d readme =
    if text_eq readme (bytes "materialized")
    then elim d.code [
      | Code.date_rollover ↦ record d { code = Code.verified }
      | _ ↦ record published_usage { action = some Action.publish_now; code = Code.verified }
    ]
    else if text_eq readme (bytes "pending")
    then record d {
      publish = true;
      phase = Phase.waiting;
      label = Label.near_midnight;
      code = Code.waiting_cooldown;
      action = some Action.wait_until;
    }
    else if text_eq readme (bytes "deferred")
    then record {
      publish = false;
      phase = Phase.waiting;
      label = Label.will_retry_readme;
      code = Code.pending_github;
      action = some Action.retry_pending;
      due_at = none;
      detail = [];
    }
    else if text_eq readme (bytes "blocked")
        || text_eq readme (bytes "coalesced")
        || text_eq readme (bytes "unchanged")
    then elim d.action [
      | some Action.publish_now ↦ skipped Label.wall_unknown Code.blocked_data
      | _ ↦ elim d.phase [
        | Phase.published ↦ record d { publish = false; phase = Phase.skipped }
        | _ ↦ record d { publish = false }
      ]
    ]
    else d

-- `ApplyRefresh` from the answer of Put on, where it is no server error
unfoldable pub after_put : Decision → PutResult → ApplyResult
after_put d res =
    if res.status == 401 || res.status == 403
    then signed_out
    else if leb 400 res.status
    then record (decided failed_refresh) { rejected = true }
    else if res.kept_previous
    then if text_eq res.reason (bytes "regression")
      then decided (skipped Label.usage_fell Code.blocked_regression)
      else decided (skipped Label.coverage_weaker Code.blocked_data)
    else decided (decision_after_put d res.readme)

-- `stored`, where the context was not cancelled, from the answer of its Fetch
abbrev pub is_stored : Fetched → Text → Bool
is_stored (Fetched.view v) id = v.found && text_eq v.snapshot.snapshot_id id
is_stored _ id = false

-- the result of the second look at the hosted envelope, and the calls of the attempt
unfoldable pub look_again : Publisher → List Call → Text → Decision → ApplyResult × List Call
look_again p calls id d =
    if is_empty id
    then (record (decided failed_refresh) { transport = true }, calls)
    else if is_stored (p.fetched calls) id
    then (record (decided d) { already = true }, calls ++ (Call.fetch ∷ []))
    else (record (decided failed_refresh) { transport = true }, calls ++ (Call.fetch ∷ []))

-- `ApplyRefresh` from the answer of Put on
unfoldable pub uploaded_or_look :
    Publisher → List Call → Text → Decision → Option PutResult → ApplyResult × List Call
uploaded_or_look p calls id d none = look_again p calls id d
uploaded_or_look p calls id d (some res) =
    if res.status == 429 || leb 500 res.status
    then look_again p calls id d
    else (after_put d res, calls)

-- `in.Verified.SnapshotID != local.SnapshotID`, or there is no wall
abbrev pub unverified_here : RemoteView → Snapshot → Bool
unverified_here v local = not v.wall_known || not (text_eq v.wall.snapshot_id local.snapshot_id)

-- the decision where the hosted envelope already shows the local snapshot
unfoldable pub stored_decision : RemoteView → Snapshot → Decision → Decision
stored_decision v local d = elim d.action [
  | some Action.publish_now ↦
      if unverified_here v local
      then record d {
        publish = false;
        phase = Phase.waiting;
        label = Label.will_retry_readme;
        code = Code.pending_github;
        action = some Action.retry_pending;
      }
      else d
  | _ ↦ d
]

-- the view shows a snapshot
abbrev pub shows : RemoteView → Bool
shows v = v.found && not (is_empty v.snapshot.snapshot_id)

unfoldable pub refresh_input : RemoteView → Snapshot → Time → Permit → RefreshInput
refresh_input v local now correction = record {
  local = local;
  remote = if shows v then some v.snapshot else none;
  remote_updated_at = v.updated_at;
  verified = v.wall;
  pending = v.pending;
  wall_known = v.wall_known;
  now = now;
  offline = false;
  correction = correction;
}

-- the zero values of Go
abbrev zero_time : Time
zero_time = record { instant = 0; zone = pos 0 }

abbrev pub offline_input : Snapshot → Time → RefreshInput
offline_input local now = record {
  local = local;
  remote = none;
  remote_updated_at = zero_time;
  verified = record {
    proven = false;
    snapshot_id = [];
    total = none;
    as_of_date = [];
    published_at = zero_time;
  };
  pending = record { snapshot_id = []; due_at = none; reason = none; failed = false };
  wall_known = false;
  now = now;
  offline = true;
  correction = record { reason = []; delta = pos 0 };
}

module _ (valid : Snapshot → Bool) (marshal : Snapshot → Option Text)
    (sensitive : Text → Bool) where
  -- `Validate`, `Marshal` and `Sensitive`: the body, where it may be sent
  unfoldable pub body_of : Snapshot → Option Text
  body_of local =
      if valid local
      then elim (marshal local) [
        | none ↦ none
        | some raw ↦ if sensitive raw then none else some raw
      ]
      else none

  abbrev pub send :
      Publisher → List Call → Snapshot → Decision → Option Text → ApplyResult × List Call
  send p calls local d none = (record (decided failed_refresh) { rejected = true }, calls)
  send p calls local d (some raw) =
      uploaded_or_look p (calls ++ (Call.put raw ∷ [])) local.snapshot_id d (p.uploaded calls raw)

  -- ApplyRefresh from the decision on
  unfoldable pub apply_decision :
      Publisher → List Call → RemoteView → Snapshot → Decision → ApplyResult × List Call
  apply_decision p calls v local d =
      if not d.publish
      then (decided d, calls)
      else if shows v && text_eq v.snapshot.snapshot_id local.snapshot_id
      then (record (decided (stored_decision v local d)) { already = true }, calls)
      else send p calls local d (body_of local)

  -- ApplyRefresh from the answer of its Fetch on
  unfoldable pub apply_fetched :
      Publisher → List Call → Snapshot → Time → Permit → Fetched → ApplyResult × List Call
  apply_fetched p calls local now correction Fetched.not_signed_in = (signed_out, calls)
  apply_fetched p calls local now correction Fetched.failed =
      (record (decided failed_refresh) { transport = true }, calls)
  apply_fetched p calls local now correction (Fetched.view v) =
      apply_decision p calls v local (decide_refresh (refresh_input v local now correction))

  -- `ApplyRefresh` where the context is not cancelled and there is a publisher: the result, and the
  -- calls made; the remote snapshot that a result carries for display is left out
  unfoldable pub apply_refresh :
      Publisher → Snapshot → Time → Permit → Bool → ApplyResult × List Call
  apply_refresh p local now correction offline =
      if offline
      then (decided (decide_refresh (offline_input local now)), [])
      else apply_fetched p (Call.fetch ∷ []) local now correction (p.fetched [])
