-- ===== src/Sync.antt =====
-- internal/syncagg: the daily rows that a device sends to the hosted service, their scope and their
-- hashed source. HMAC-SHA-256 in hexadecimal is the parameter `hmac_hex`.
pub mod Store
pub mod Batch
pub mod Receive
use where_token.Base.{
  ℕ, Bool, true, false, not, ◌&&◌, ◌||◌, ◌==◌, Option, none, some, List, [], ◌∷◌, ◌++◌,
  if◌then◌else◌, length,
}
use where_token.Base.Int.{ℤ}
use where_token.Base.Text.{Text, bytes, text_eq, is_empty}
use where_token.Event.{UsageEvent, is_provider_api}

-- `SourceScope`, of which ParseScope knows two
pub data SourceScope : Type 0 where
  device_local account_global : SourceScope

abbrev pub scope_text : SourceScope → Text
scope_text device_local = bytes "device_local"
scope_text account_global = bytes "account_global"

abbrev pub same_scope : SourceScope → SourceScope → Bool
same_scope device_local device_local = true
same_scope account_global account_global = true
same_scope _ _ = false

-- `ParseScope`
unfoldable pub parse_scope : Text → Option SourceScope
parse_scope s =
    if text_eq s (bytes "device_local")
    then some device_local
    else if text_eq s (bytes "account_global")
    then some account_global
    else none

-- `ScopeOf`
unfoldable pub scope_of : UsageEvent → SourceScope
scope_of e =
    if text_eq e.source (bytes "cursor") && is_provider_api e.derivation
    then account_global
    else device_local

-- `SourceKeyHash`; `none` is an error
unfoldable pub source_key_hash :
    (Text → Text → Text) → Text → Text → SourceScope → Text → Option Text
source_key_hash hmac_hex user_key tool scope stable =
    if not (length user_key == 32)
    then none
    else if is_empty tool || is_empty stable
    then none
    else some (
        hmac_hex user_key
          (bytes "wheretoken/v1/" ++ tool ++ (b'/' ∷ scope_text scope ++ (b'/' ∷ stable))))

-- `DailyModel`
pub record DailyModel : Type 0 where
  pub date : Text
  pub tool : Text
  pub source_scope : SourceScope
  pub source_key_hash : Text
  pub vendor : Text
  pub model : Text
  pub miss : ℤ
  pub cache_read : ℤ
  pub cache_create : ℤ
  pub output : ℤ
  pub requests : ℤ
  pub user_turns : ℤ
  pub quality : Text
  pub derivation : Text
  pub revision : ℤ
