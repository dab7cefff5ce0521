-- ===== src/Event.antt =====
-- internal/event/event.go: one observed request of an agent, and a user turn.
pub mod Clock
use where_token.Base.{Bool, true, false}
use where_token.Base.Int.{ℤ, negsuc}
use where_token.Base.Int64.{wrap64}
use where_token.Base.Text.{Text, bytes}

-- `type Quality string`; `other` holds any other string, the empty one included
pub data Quality : Type 0 where
  authoritative degraded estimated absent : Quality
  other : Text → Quality

-- the Derive constants; `other` holds any other string
pub data Derivation : Type 0 where
  raw provider_api derived deduplicated estimated retained_api : Derivation
  other : Text → Derivation

abbrev pub quality_text : Quality → Text
quality_text authoritative = bytes "authoritative"
quality_text degraded = bytes "degraded"
quality_text estimated = bytes "estimated"
quality_text absent = bytes "absent"
quality_text (other s) = s

abbrev pub derivation_text : Derivation → Text
derivation_text raw = bytes "raw"
derivation_text provider_api = bytes "provider_api"
derivation_text derived = bytes "derived"
derivation_text deduplicated = bytes "deduplicated"
derivation_text estimated = bytes "estimated"
derivation_text retained_api = bytes "retained_api"
derivation_text (other s) = s

abbrev pub is_provider_api : Derivation → Bool
is_provider_api provider_api = true
is_provider_api _ = false

abbrev pub is_retained : Derivation → Bool
is_retained retained_api = true
is_retained _ = false

-- time.Time: nanoseconds since the Unix epoch. The zero Time is the start of the year 1.
abbrev pub Time : Type 0
Time = ℤ

abbrev pub zero_time : Time
zero_time = negsuc 62135596799999999999

-- t.UnixNano()
abbrev pub unix_nano : Time → ℤ
unix_nano = wrap64

pub record UsageEvent : Type 0 where
  pub source : Text
  pub vendor : Text
  pub source_root : Text
  pub session_id : Text
  pub request_id : Text
  pub model : Text
  pub provider : Text
  pub workspace : Text
  pub timestamp : Time
  pub miss : ℤ
  pub cache_read : ℤ
  pub cache_create : ℤ
  pub output : ℤ
  pub reasoning : ℤ
  pub quality : Quality
  pub derivation : Derivation
  pub skip_request : Bool

pub record TurnEvent : Type 0 where
  pub source : Text
  pub session_id : Text
  pub workspace : Text
  pub timestamp : Time
