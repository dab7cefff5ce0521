-- ===== src/Profile/Refresh.antt =====
-- internal/publicprofile/refresh_policy.go: whether a client uploads its snapshot.
pub mod Laws
pub mod Apply
use where_token.Base.{
  ℕ, Bool, true, false, not, ◌&&◌, Option, none, some, [], if◌then◌else◌, is_some,
}
use where_token.Base.Text.{Text, text_eq, is_empty}
use where_token.Profile.Snapshot.{Snapshot}
use where_token.Profile.Labels.{Action, PublishReason, Code, Phase, Label}
use where_token.Profile.Calendar.{Time}
use where_token.Profile.Publish.{
  Permit, VerifiedWall, PendingIntent, PublicationInput, PublicationDecision, decide_publication,
  wall_from_snapshot,
}

-- `action` is none for the empty string
pub record Decision : Type 0 where
  pub publish : Bool
  pub phase : Phase
  pub label : Label
  pub code : Code
  pub action : Option Action
  pub due_at : Option ℕ
  pub detail : Text

pub record RefreshInput : Type 0 where
  pub local : Snapshot
  pub remote : Option Snapshot
  pub remote_updated_at : Time
  pub verified : VerifiedWall
  pub pending : PendingIntent
  pub wall_known : Bool
  pub now : Time
  pub offline : Bool
  pub correction : Permit

abbrev pub skipped : Label → Code → Decision
skipped label code = record {
  publish = false;
  phase = Phase.skipped;
  label = label;
  code = code;
  action = none;
  due_at = none;
  detail = [];
}

abbrev pub published_usage : Decision
published_usage = record {
  publish = true;
  phase = Phase.published;
  label = Label.usage_updated;
  code = Code.published;
  action = none;
  due_at = none;
  detail = [];
}

abbrev pub failed_refresh : Decision
failed_refresh = record {
  publish = false;
  phase = Phase.failed;
  label = Label.update_failed;
  code = Code.will_retry;
  action = none;
  due_at = none;
  detail = [];
}

-- `in.Remote != nil && in.Remote.SnapshotID != ""`
abbrev pub has_id : Option Snapshot → Bool
has_id none = false
has_id (some s) = not (is_empty s.snapshot_id)

unfoldable pub blocked_decision : PublicationDecision → RefreshInput → Decision
blocked_decision pub_ i = elim pub_.reason [
  | PublishReason.unavailable ↦
      if has_id i.remote
      then skipped Label.unavailable_kept Code.blocked_data
      else skipped Label.unavailable Code.blocked_data
  | PublishReason.coverage ↦ skipped Label.coverage_weaker Code.blocked_data
  | PublishReason.negative ↦ skipped Label.usage_fell Code.blocked_regression
  | PublishReason.unknown_verified ↦ skipped Label.wall_unknown Code.blocked_data
  | PublishReason.cooldown ↦ skipped Label.cooldown_left Code.skipped_cooldown
  | _ ↦ skipped Label.unavailable_kept Code.blocked_data
]

unfoldable pub no_change_decision : PublicationDecision → RefreshInput → Decision
no_change_decision pub_ i = elim pub_.reason [
  | PublishReason.earlier_date ↦ skipped Label.earlier_date Code.skipped_delta
  | PublishReason.same ↦ skipped Label.unchanged Code.skipped_delta
  | PublishReason.delta ↦ skipped Label.below_step Code.skipped_delta
  | _ ↦
      if is_some i.remote
      then skipped Label.below_step Code.skipped_delta
      else skipped Label.unavailable Code.no_code
]

abbrev pub publish_decision : PublishReason → Decision
publish_decision PublishReason.date = record {
  publish = true;
  phase = Phase.published;
  label = Label.date_updated;
  code = Code.date_rollover;
  action = some Action.publish_now;
  due_at = none;
  detail = [];
}
publish_decision _ = record published_usage { action = some Action.publish_now }

-- the remote snapshot is the local one
abbrev pub already_remote : Option Snapshot → Snapshot → Bool
already_remote none local = false
already_remote (some r) local =
    not (is_empty r.snapshot_id) && text_eq r.snapshot_id local.snapshot_id

unfoldable pub refresh_from_publication : PublicationDecision → RefreshInput → Decision
refresh_from_publication pub_ i = elim pub_.action [
  | Action.publish_now ↦ publish_decision pub_.reason
  | Action.wait_until ↦ record {
    publish = not (already_remote i.remote i.local);
    phase = Phase.waiting;
    label = Label.near_midnight;
    code = Code.waiting_cooldown;
    action = some Action.wait_until;
    due_at = pub_.due_at;
    detail = [];
  }
  | Action.retry_pending ↦ record {
    publish = false;
    phase = Phase.waiting;
    label = Label.will_retry_readme;
    code = Code.pending_github;
    action = some Action.retry_pending;
    due_at = none;
    detail = [];
  }
  | Action.blocked ↦ record (blocked_decision pub_ i) { detail = pub_.detail }
  | Action.no_change ↦ no_change_decision pub_ i
]

abbrev pub wall_of_remote : RefreshInput → Option Snapshot → VerifiedWall
wall_of_remote i none = i.verified
wall_of_remote i (some r) =
    if is_empty r.snapshot_id then i.verified else wall_from_snapshot r i.remote_updated_at

-- `verified`
unfoldable pub refresh_wall : RefreshInput → VerifiedWall
refresh_wall i = if i.wall_known then i.verified else wall_of_remote i i.remote

-- the input of DecidePublication
unfoldable pub publication_input : RefreshInput → PublicationInput
publication_input i = record {
  candidate = i.local;
  accepted = i.remote;
  verified = refresh_wall i;
  pending = i.pending;
  now = i.now;
  theme_change = false;
  offline = false;
  from_worker = false;
  correction = i.correction;
}

unfoldable pub decide_refresh : RefreshInput → Decision
decide_refresh i =
    if i.offline
    then if has_id i.remote
      then skipped Label.offline_kept Code.offline
      else skipped Label.offline_unpublished Code.offline
    else refresh_from_publication (decide_publication (publication_input i)) i
