-- ===== src/Sync/Batch/Keys.antt =====
-- The key of the row that an event of Build goes to, said by the fields of the event.
use where_token.Base.{
  ◌≡◌, refl, sym, ap, ◌∙◌, inl, inr, Bool, false, not, ◌&&◌, Option, none, some, arith,
  if◌then◌else◌, Bool-cases, Option-cases,
}
use where_token.Base.Int.{ℤ}
use where_token.Base.Text.{Text, bytes, text_eq, is_empty, trim_space}
use where_token.Base.Dict.{get}
use where_token.Event.{UsageEvent, is_provider_api}
use where_token.Event.Clock.{is_zero_time, instant_of}
use where_token.Profile.Calendar.{date_of, format_date}
use where_token.Sync.{
  SourceScope, device_local, account_global, same_scope, scope_of, source_key_hash, DailyModel,
}
use where_token.Sync.Store.{same_daily}
use where_token.Sync.Batch.{
  BuildInput, RowOutcome, left_out, failed, keyed, new_daily, row_of, hash_for, local_day,
  text_or_empty, unhashed,
}

-- only Cursor's account API is of the account
abbrev pub scope_for : UsageEvent → SourceScope
scope_for e =
    if text_eq e.source (bytes "cursor") && is_provider_api e.derivation
    then account_global
    else device_local

module _ (hmac_hex : Text → Text → Text) (i : BuildInput) (zone : ℤ) where
  -- whom the hash of a source names: the account of the tool, or the device
  abbrev pub owner_of : Text → SourceScope → Text
  owner_of tool account_global = trim_space (text_or_empty (get tool i.account_stable_id))
  owner_of tool device_local = i.device_id

  abbrev pub owner_hash : Text → SourceScope → Option Text
  owner_hash tool scope =
      if is_empty (owner_of tool scope)
      then none
      else source_key_hash hmac_hex i.user_hash_key tool scope (owner_of tool scope)

  abbrev pub has_hash : Option Text → Text → Bool
  has_hash none hash = false
  has_hash (some h) hash = text_eq h hash

  -- the tool, the scope, the local day, the vendor and the model of an event are those of a key
  unfoldable pub has_parts : DailyModel → UsageEvent → Bool
  has_parts k e =
      same_scope (scope_for e) k.source_scope
      && text_eq e.source k.tool
      && text_eq (format_date (date_of (record { instant = instant_of e.timestamp; zone = zone })))
          k.date
      && text_eq e.vendor k.vendor
      && text_eq e.model k.model

  -- the event is dated and has a hash, and its key is that of the row
  unfoldable pub belongs : DailyModel → UsageEvent → Bool
  belongs k e =
      has_hash (owner_hash e.source (scope_for e)) k.source_key_hash
      && (not (is_zero_time e.timestamp) && has_parts k e)

  hash_for-owner_hash :
      (tool : Text) (scope : SourceScope)
      → hash_for hmac_hex i zone tool scope ≡ owner_hash tool scope
  unfolding hash_for source_key_hash
  hash_for-owner_hash tool account_global = refl
  hash_for-owner_hash tool device_local = ground arith

  -- the row of an event, and whether it has a key
  unfoldable pub is_keyed : DailyModel → RowOutcome → Bool
  is_keyed k left_out = false
  is_keyed k failed = false
  is_keyed k (keyed fresh) = same_daily fresh k

  unhashed-is_keyed :
      (k : DailyModel) (s : SourceScope) → is_keyed k (unhashed hmac_hex i zone s) ≡ false
  unfolding is_keyed
  unhashed-is_keyed k account_global = refl
  unhashed-is_keyed k device_local = refl

  same_daily-has_parts :
      (k : DailyModel) (e : UsageEvent) (hash : Text)
      → same_daily (new_daily (local_day zone e.timestamp) hash i.revision e) k
        ≡ text_eq hash k.source_key_hash && has_parts k e
  unfolding same_daily has_parts scope_of local_day
  same_daily-has_parts k e hash = ground arith

  pub row_of_missing :
      (e : UsageEvent)
      → hash_for hmac_hex i zone e.source (scope_of e) ≡ none
      → row_of hmac_hex i zone e ≡ unhashed hmac_hex i zone (scope_of e)
  unfolding row_of
  row_of_missing e h = rw (h, row_of) refl

  pub row_of_found :
      (e : UsageEvent) (hash : Text)
      → hash_for hmac_hex i zone e.source (scope_of e) ≡ some hash
      → row_of hmac_hex i zone e ≡ (
          if is_zero_time e.timestamp
          then left_out
          else keyed (new_daily (local_day zone e.timestamp) hash i.revision e))
  unfolding row_of
  row_of_found e hash h = rw (h, row_of) refl

  belongs-has_hash :
      (k : DailyModel) (e : UsageEvent) (hash : Option Text)
      → hash_for hmac_hex i zone e.source (scope_of e) ≡ hash
      → belongs k e
        ≡ has_hash hash k.source_key_hash && (not (is_zero_time e.timestamp) && has_parts k e)
  unfolding belongs scope_of
  belongs-has_hash k e hash h =
      ap (λ x. has_hash x k.source_key_hash && (not (is_zero_time e.timestamp) && has_parts k e))
        (sym (hash_for-owner_hash e.source (scope_for e)) ∙ h)

  pub row_of-belongs :
      (k : DailyModel) (e : UsageEvent) → is_keyed k (row_of hmac_hex i zone e) ≡ belongs k e
  unfolding is_keyed
  row_of-belongs k e = elim (Option-cases (hash_for hmac_hex i zone e.source (scope_of e))) [
    | inl missing ↦
        rw (row_of_missing e missing, belongs-has_hash k e none missing)
          (unhashed-is_keyed k (scope_of e))
    | inr (hash, found) ↦
        rw (row_of_found e hash found, belongs-has_hash k e (some hash) found)
          (elim (Bool-cases (is_zero_time e.timestamp)) [
            | inl undated ↦ ground (arith, undated)
            | inr dated ↦ rw (dated, if◌then◌else◌) (same_daily-has_parts k e hash)
          ])
  ]

  -- an event whose row has another key, or that has none
  pub belongs_skip :
      (k : DailyModel) (e : UsageEvent) (o : RowOutcome)
      → row_of hmac_hex i zone e ≡ o
      → is_keyed k o ≡ false
      → belongs k e ≡ false
  belongs_skip k e o h away = sym (row_of-belongs k e) ∙ ap (is_keyed k) h ∙ away
