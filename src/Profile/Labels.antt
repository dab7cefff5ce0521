-- ===== src/Profile/Labels.antt =====
-- internal/publicprofile/publish_policy.go and refresh_policy.go: the fixed labels of the gates,
-- which are string constants there.
-- the Action constants
pub data Action : Type 0 where
  publish_now wait_until no_change retry_pending blocked : Action

-- the Reason constants
pub data PublishReason : Type 0 where
  usage date theme first retry cooldown delta coverage unavailable earlier_date : PublishReason
  unknown_verified negative correction offline same : PublishReason

-- the Code constants; `no_code` is the empty string
pub data Code : Type 0 where
  no_code published date_rollover skipped_cooldown skipped_delta will_retry not_signed_in : Code
  offline busy waiting_cooldown pending_github blocked_data blocked_auth : Code
  blocked_regression verified : Code

-- the Phase constants that the gates use; `no_phase` is the empty string
pub data Phase : Type 0 where
  no_phase published skipped waiting failed : Phase

-- the Chinese phase texts of refresh_policy.go, named for what they say
pub data Label : Type 0 where
  no_label usage_updated date_updated near_midnight will_retry_readme offline_kept
        offline_unpublished :
      Label
  unavailable_kept unavailable coverage_weaker usage_fell wall_unknown cooldown_left : Label
  earlier_date unchanged below_step update_failed : Label
