-- ===== src/Profile/Publish.antt =====
-- internal/publicprofile/publish_policy.go, correction.go and laterLocalDate of live.go: whether a
-- snapshot may update the activity wall on GitHub.
pub mod Laws
use where_token.Base.{
  ℕ, ◌+◌, ◌-◌, ◌*◌, ◌/◌, Bool, true, false, not, ◌&&◌, ◌||◌, Option, none, some, [], if◌then◌else◌,
  ltb, leb, is_some, any_of, ◌==◌, length,
}
use where_token.Base.Int.{ℤ, pos, negsuc, pos_part, ltb_ℤ, leb_ℤ, eqb_ℤ, ◌-ℤ◌}
use where_token.Base.Int64.{sub64}
use where_token.Base.Text.{Text, bytes, text_eq, is_empty, trim_space}
use where_token.Base.Decimal.{parse_int}
use where_token.Profile.Snapshot.{Snapshot, token_value, is_known}
use where_token.Profile.Labels.{Action, PublishReason, Code}
use where_token.Profile.Keep.{should_replace_projection, lost_provider_ids}
use where_token.Profile.Calendar.{
  Time, parse_date, both_before, is_zero, date_of, format_date, remaining, wall, day_length, hour,
  of_minutes,
}

-- `Correction`
pub record Permit : Type 0 where
  pub reason : Text
  pub delta : ℤ

-- `Correction.Explains`
unfoldable pub explains : Permit → ℤ → ℤ → Bool
explains c prev next =
    not (is_empty (trim_space c.reason))
    && ltb_ℤ (pos 0) c.delta
    && ltb_ℤ next prev
    && eqb_ℤ (sub64 prev next) c.delta

-- the bytes of "\r\n"
abbrev pub is_line_break : ℕ → Bool
is_line_break c = c == 13 || c == 10

-- the end of `CorrectionAllows`, from the result of ParseInt
abbrev pub allows_delta : Text → Option ℤ → ℤ → ℤ → Bool
allows_delta reason none prev next = false
allows_delta reason (some delta) prev next =
    if leb_ℤ delta (pos 0)
    then false
    else explains (record { reason = reason; delta = delta }) prev next

unfoldable pub correction_allows : Text → Text → ℤ → ℤ → Bool
correction_allows reason delta_text prev next =
    let reason = trim_space reason in
    if is_empty reason || ltb 200 (length reason) || any_of is_line_break reason
    then false
    else allows_delta reason (parse_int (trim_space delta_text)) prev next

pub record VerifiedWall : Type 0 where
  pub proven : Bool
  pub snapshot_id : Text
  pub total : Option ℤ
  pub as_of_date : Text
  pub published_at : Time

pub record PendingIntent : Type 0 where
  pub snapshot_id : Text
  pub due_at : Option Time
  pub reason : Option PublishReason
  pub failed : Bool

pub record PublicationInput : Type 0 where
  pub candidate : Snapshot
  pub accepted : Option Snapshot
  pub verified : VerifiedWall
  pub pending : PendingIntent
  pub now : Time
  pub theme_change : Bool
  pub offline : Bool
  pub from_worker : Bool
  pub correction : Permit

-- `due_at` is the instant, where it is set
pub record PublicationDecision : Type 0 where
  pub action : Action
  pub due_at : Option ℕ
  pub reason : PublishReason
  pub code : Code
  pub detail : Text

abbrev pub decision : Action → PublishReason → Code → PublicationDecision
decision action reason code = record {
  action = action;
  due_at = none;
  reason = reason;
  code = code;
  detail = [];
}

abbrev pub valid_local_date : Text → Bool
valid_local_date s = is_some (parse_date s)

abbrev pub earlier_local_date : Text → Text → Bool
earlier_local_date next prev = both_before (parse_date next) (parse_date prev)

-- `laterLocalDate` of live.go
abbrev pub later_local_date : Text → Text → Bool
later_local_date next prev =
    both_before (parse_date (trim_space prev)) (parse_date (trim_space next))

unfoldable pub date_rollover : VerifiedWall → Snapshot → Bool
date_rollover v cand = v.proven && later_local_date cand.as_of_date v.as_of_date

-- the candidate is the snapshot on the wall
abbrev pub on_wall : PublicationInput → Bool
on_wall i =
    not (is_empty i.candidate.snapshot_id) && text_eq i.candidate.snapshot_id i.verified.snapshot_id

unfoldable pub retryable : PublicationInput → Bool
retryable i =
    if not i.pending.failed || is_empty i.pending.snapshot_id
    then false
    else if i.verified.proven && on_wall i
    then false
    else true

-- `ownerNow`
abbrev pub in_owner_zone : Time → Option ℤ → Time
in_owner_zone now none = now
in_owner_zone now (some offset) =
    if leb_ℤ (negsuc 839) offset && leb_ℤ offset (pos 840)
    then record { instant = now.instant; zone = offset }
    else now

unfoldable pub owner_now : PublicationInput → Time
owner_now i = in_owner_zone i.now i.candidate.owner_utc_offset_minutes

abbrev pub is_cooldown : Option PublishReason → Bool
is_cooldown (some PublishReason.cooldown) = true
is_cooldown _ = false

-- RefreshMinDelta or RefreshMinDeltaB
abbrev pub min_delta : ℤ → ℤ → ℤ
min_delta total wall_total =
    if leb_ℤ (pos 1000000000) total || leb_ℤ (pos 1000000000) wall_total
    then pos 10000000
    else pos 10000

-- `wallMidnight`, as an instant
unfoldable pub wall_midnight : Time → ℕ
wall_midnight t = t.instant + remaining t

-- the end of the gate, where the total grew enough
unfoldable pub growth : PublicationInput → PublicationDecision
growth i =
    let now = owner_now i in
    let left = remaining now in
    if not (is_zero now)
      && text_eq i.candidate.as_of_date (format_date (date_of now))
      && ltb 0 left
      && leb left (4 * hour)
    then record {
      action = Action.wait_until;
      due_at = some (wall_midnight now);
      reason = PublishReason.cooldown;
      code = Code.waiting_cooldown;
      detail = [];
    }
    else decision Action.publish_now PublishReason.usage Code.published

-- the same-day gate, from the total of the wall
unfoldable pub same_day : PublicationInput → ℤ → Option ℤ → PublicationDecision
same_day i total none = decision Action.blocked PublishReason.unknown_verified Code.blocked_data
same_day i total (some wall_total) =
    if not (is_zero (owner_now i))
      && is_cooldown i.pending.reason
      && valid_local_date i.candidate.as_of_date
      && earlier_local_date i.candidate.as_of_date (format_date (date_of (owner_now i)))
    then decision Action.no_change PublishReason.earlier_date Code.skipped_delta
    else if ltb_ℤ (sub64 total wall_total) (min_delta total wall_total)
    then decision Action.no_change PublishReason.delta Code.skipped_delta
    else growth i

unfoldable pub rollover : Option ℤ → PublicationDecision
rollover none = decision Action.blocked PublishReason.unknown_verified Code.blocked_data
rollover (some _) = decision Action.publish_now PublishReason.date Code.date_rollover

-- `in.Verified.Proven && in.Verified.Total != nil && *total < *in.Verified.Total`, and whether the
-- permit explains it
abbrev pub drop_from : PublicationInput → ℤ → Option ℤ → Bool → Bool
drop_from i total none explained = false
drop_from i total (some wall_total) explained =
    i.verified.proven
    && ltb_ℤ total wall_total
    && (if explains i.correction wall_total total then explained else not explained)

-- `in.Accepted` is another snapshot that the candidate may not replace
abbrev pub coverage_lost : Option Snapshot → Snapshot → Bool
coverage_lost none candidate = false
coverage_lost (some accepted) candidate =
    not (is_empty accepted.snapshot_id)
    && not (text_eq accepted.snapshot_id candidate.snapshot_id)
    && not (should_replace_projection accepted candidate)

abbrev pub lost_detail : Option Snapshot → Snapshot → Text
lost_detail none candidate = []
lost_detail (some accepted) candidate = lost_provider_ids accepted candidate

-- the gate behind the guards on regressions and dates
unfoldable pub decide_growth : PublicationInput → ℤ → PublicationDecision
decide_growth i total =
    if i.theme_change
    then decision Action.publish_now PublishReason.theme Code.published
    else if date_rollover i.verified i.candidate
    then rollover i.verified.total
    else if retryable i
    then if i.from_worker
      then decision Action.publish_now PublishReason.retry Code.pending_github
      else decision Action.retry_pending PublishReason.retry Code.pending_github
    else if not i.verified.proven || is_empty i.verified.snapshot_id
    then decision Action.publish_now PublishReason.first Code.published
    else if on_wall i
    then decision Action.no_change PublishReason.same Code.skipped_delta
    else same_day i total i.verified.total

-- the gate for a known total
unfoldable pub decide_known : PublicationInput → ℤ → PublicationDecision
decide_known i total =
    if coverage_lost i.accepted i.candidate
    then record {
      action = Action.blocked;
      due_at = none;
      reason = PublishReason.coverage;
      code = Code.blocked_data;
      detail = lost_detail i.accepted i.candidate;
    }
    else if drop_from i total i.verified.total false
    then decision Action.blocked PublishReason.negative Code.blocked_regression
    else if i.verified.proven
        && valid_local_date i.verified.as_of_date
        && valid_local_date i.candidate.as_of_date
        && earlier_local_date i.candidate.as_of_date i.verified.as_of_date
    then decision Action.no_change PublishReason.earlier_date Code.skipped_delta
    else if drop_from i total i.verified.total true
    then decision Action.publish_now PublishReason.correction Code.published
    else decide_growth i total

unfoldable pub decide_total : PublicationInput → Option ℤ → PublicationDecision
decide_total i none = decision Action.blocked PublishReason.unavailable Code.blocked_data
decide_total i (some total) =
    if not (is_known i.candidate.data_status)
    then decision Action.blocked PublishReason.unavailable Code.blocked_data
    else decide_known i total

unfoldable pub decide_publication : PublicationInput → PublicationDecision
decide_publication i =
    if i.offline
    then decision Action.blocked PublishReason.offline Code.offline
    else decide_total i (token_value i.candidate)

unfoldable pub wall_from_snapshot : Snapshot → Time → VerifiedWall
wall_from_snapshot s published_at = record {
  proven = not (is_empty s.snapshot_id);
  snapshot_id = s.snapshot_id;
  total = token_value s;
  as_of_date = s.as_of_date;
  published_at = published_at;
}
