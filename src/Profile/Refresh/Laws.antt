-- ===== src/Profile/Refresh/Laws.antt =====
-- What the upload gate of a client promises (internal/publicprofile/refresh_policy.go).
use where_token.Base.{◌≡◌, ◌≢◌, ◌⊎◌, inl, inr, ap, arith, true, false}
use where_token.Profile.Labels.{Action, PublishReason, Code}
use where_token.Profile.Publish.{PublicationDecision, decide_publication}
use where_token.Profile.Publish.Laws.{IsSafe, is_publication, decide_publication-IsSafe}
use where_token.Profile.Refresh.{
  RefreshInput, decide_refresh, publication_input, refresh_from_publication, blocked_decision,
  no_change_decision, publish_decision, already_remote,
}

blocked_decision-kept :
    (d : PublicationDecision) (i : RefreshInput) → (blocked_decision d i).publish ≡ false
unfolding blocked_decision
blocked_decision-kept d i = ground arith

no_change_decision-kept :
    (d : PublicationDecision) (i : RefreshInput) → (no_change_decision d i).publish ≡ false
unfolding no_change_decision
no_change_decision-kept d i = ground arith

refresh_from_publication-passed :
    (d : PublicationDecision) (i : RefreshInput)
    → (refresh_from_publication d i).publish ≡ true
    → (d.action ≡ Action.publish_now)
      ⊎ ((d.action ≡ Action.wait_until) × (already_remote i.remote i.local ≡ false))
unfolding refresh_from_publication
refresh_from_publication-passed d i h =
    ground (arith, blocked_decision-kept d i, no_change_decision-kept d i)

passed-is_publication :
    (d : PublicationDecision) (i : RefreshInput)
    → (d.action ≡ Action.publish_now)
      ⊎ ((d.action ≡ Action.wait_until) × (already_remote i.remote i.local ≡ false))
    → is_publication d.action ≡ true
passed-is_publication d i (inl now) = ap is_publication now
passed-is_publication d i (inr (wait, _)) = ap is_publication wait

-- A client uploads a snapshot only while online, and only where the publication gate, asked with the
-- wall that the client knows, answers to publish now, or to wait where the hosted envelope does not
-- have the snapshot yet; then the snapshot has passed the guards of the gate.
pub decide_refresh-IsSafe :
    (i : RefreshInput)
    → (decide_refresh i).publish ≡ true
    → let d = decide_publication (publication_input i) in
      (i.offline ≡ false)
      × ((d.action ≡ Action.publish_now)
          ⊎ ((d.action ≡ Action.wait_until) × (already_remote i.remote i.local ≡ false)))
      × IsSafe (publication_input i)
unfolding decide_refresh
decide_refresh-IsSafe i h =
    let d = decide_publication (publication_input i) in
    let passed = refresh_from_publication-passed d i (ground arith) in
    (
      ground arith,
      passed,
      decide_publication-IsSafe (publication_input i) (passed-is_publication d i passed),
    )

blocked_decision-unverified :
    (d : PublicationDecision) (i : RefreshInput) → (blocked_decision d i).code ≢ Code.verified
unfolding blocked_decision
blocked_decision-unverified d i h = ground arith

no_change_decision-unverified :
    (d : PublicationDecision) (i : RefreshInput) → (no_change_decision d i).code ≢ Code.verified
unfolding no_change_decision
no_change_decision-unverified d i h = ground arith

publish_decision-unverified : (r : PublishReason) → (publish_decision r).code ≢ Code.verified
publish_decision-unverified r h = ground arith

refresh_from_publication-unverified :
    (d : PublicationDecision) (i : RefreshInput)
    → (refresh_from_publication d i).code ≢ Code.verified
unfolding refresh_from_publication
refresh_from_publication-unverified d i h = ground (
  arith,
  blocked_decision-unverified d i,
  no_change_decision-unverified d i,
  publish_decision-unverified d.reason,
)

-- The gate of the client never says of itself that the wall is verified.
pub decide_refresh-unverified : (i : RefreshInput) → (decide_refresh i).code ≢ Code.verified
unfolding decide_refresh
decide_refresh-unverified i h =
    ground (arith, refresh_from_publication-unverified (decide_publication (publication_input i)) i)
