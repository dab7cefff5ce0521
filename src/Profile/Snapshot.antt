-- ===== src/Profile/Snapshot.antt =====
-- internal/publicprofile/snapshot.go: the part of a public snapshot that the publication gates read.
use where_token.Base.{Bool, true, false, Option, List}
use where_token.Base.Int.{ℤ}
use where_token.Base.Text.{Text}

-- the Status constants; `other` holds any other string
pub data Status : Type 0 where
  available partial unavailable : Status
  other : Text → Status

-- the coverage reasons that `measuredAgent` tells apart; `other` holds any other string
pub data Reason : Type 0 where
  account_api_skipped auth_missing api_failed : Reason
  other : Text → Reason

-- `TokenSourceAccountAPI`; `other` holds any other string
pub data TokenSource : Type 0 where
  account_api : TokenSource
  other : Text → TokenSource

pub record DateRange : Type 0 where
  pub label : Text
  pub to : Text

pub record Coverage : Type 0 where
  pub tokens : Status
  pub token_source : TokenSource
  pub token_window : Option DateRange
  pub reason : Reason

-- a row of ByAgent; `total` and `total_status` are Totals.Total.Value and .Status
pub record Breakdown : Type 0 where
  pub id : Text
  pub total : Option ℤ
  pub total_status : Status
  pub coverage : Coverage

-- `total` is Periods.All.Totals.Total.Value, `by_agent` is Periods.All.ByAgent
pub record Snapshot : Type 0 where
  pub snapshot_id : Text
  pub as_of_date : Text
  pub owner_utc_offset_minutes : Option ℤ
  pub data_status : Status
  pub total : Option ℤ
  pub by_agent : List Breakdown

unfoldable pub token_value : Snapshot → Option ℤ
token_value s = s.total

abbrev pub is_unavailable : Status → Bool
is_unavailable unavailable = true
is_unavailable _ = false

-- status is available or partial
abbrev pub is_known : Status → Bool
is_known available = true
is_known partial = true
is_known _ = false
