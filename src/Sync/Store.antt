-- ===== src/Sync/Store.antt =====
-- internal/hosted/store.go: ApplyUsage writes the daily rows of a device into usage_daily_model in
-- one transaction. Texts are compared byte by byte; updated_at is left out.
pub mod Laws
use where_token.Base.{
  ◌≡◌, refl, sym, ap, ◌∙◌, ◌⊎◌, inl, inr, Bool, true, false, not, ◌&&◌, ◌||◌, Option, none, some,
  List, [], ◌∷◌, arith, if◌then◌else◌, Bool-cases, Option-cases,
}
use where_token.Base.Int.{ℤ, pos, ltb_ℤ, eqb_ℤ, ◌<ℤ◌, ◌≤ℤ◌}
use where_token.Base.Text.{Text, text_eq, text_eq_iff}
use where_token.Sync.{DailyModel, SourceScope, device_local, account_global, same_scope}

-- a row of `usage_daily_model`
pub record UsageRow : Type 0 where
  pub user_id : ℤ
  pub device_id : ℤ
  pub daily : DailyModel
  pub writer_device_id : ℤ

-- `ErrStaleRevision` and `ErrRevisionClash`
pub data UsageError : Type 0 where
  stale_revision revision_clash : UsageError

pub data UsageResult : Type 0 where
  applied : List UsageRow → UsageResult
  refused : UsageError → UsageResult

-- `canonDevice`
abbrev pub canon_device : ℤ → SourceScope → ℤ
canon_device device account_global = pos 0
canon_device device device_local = device

-- The daily rows stand under the same tool, day and model.
unfoldable pub same_daily : DailyModel → DailyModel → Bool
same_daily r d =
    same_scope r.source_scope d.source_scope
    && text_eq r.tool d.tool
    && text_eq r.source_key_hash d.source_key_hash
    && text_eq r.date d.date
    && text_eq r.vendor d.vendor
    && text_eq r.model d.model

-- WHERE user_id=? AND source_scope=? AND device_id=? AND …: the primary key
unfoldable pub same_row : ℤ → ℤ → DailyModel → UsageRow → Bool
same_row user device d r =
    eqb_ℤ r.user_id user
    && eqb_ℤ r.device_id (canon_device device d.source_scope)
    && same_daily r.daily d

unfoldable pub find_row : ℤ → ℤ → DailyModel → List UsageRow → Option UsageRow
find_row user device d [] = none
find_row user device d (r ∷ rows) =
    let rest = find_row user device d rows in if same_row user device d r then some r else rest

-- UPDATE … WHERE the primary key, or INSERT where there is no such row
unfoldable pub write_usage : ℤ → ℤ → DailyModel → List UsageRow → List UsageRow
write_usage user device d [] =
    record {
      user_id = user;
      device_id = canon_device device d.source_scope;
      daily = d;
      writer_device_id = device;
    }
    ∷ []
write_usage user device d (r ∷ rows) =
    let rest = write_usage user device d rows in
    if same_row user device d r
    then record r { daily = d; writer_device_id = device } ∷ rows
    else r ∷ rest

abbrev pub apply_found : ℤ → ℤ → DailyModel → List UsageRow → Option UsageRow → UsageResult
apply_found user device d rows none = applied (write_usage user device d rows)
apply_found user device d rows (some r) =
    if ltb_ℤ d.revision r.daily.revision
    then refused stale_revision
    else if eqb_ℤ d.revision r.daily.revision
    then if not (eqb_ℤ d.miss r.daily.miss) then refused revision_clash else applied rows
    else applied (write_usage user device d rows)

-- the body of the loop
unfoldable pub apply_row : ℤ → ℤ → DailyModel → List UsageRow → UsageResult
apply_row user device d rows = apply_found user device d rows (find_row user device d rows)

-- the loop, which stops at the first error
unfoldable pub apply_rows : ℤ → ℤ → List DailyModel → List UsageRow → UsageResult
apply_rows user device [] rows = applied rows
apply_rows user device (d ∷ ds) rows = elim (apply_row user device d rows) [
  | applied rows' ↦ apply_rows user device ds rows'
  | refused e ↦ refused e
]

-- `ApplyUsage`: the table after the transaction, and its error
unfoldable pub apply_usage :
    ℤ → ℤ → List DailyModel → List UsageRow → List UsageRow × Option UsageError
apply_usage user device ds rows = elim (apply_rows user device ds rows) [
  | applied rows' ↦ (rows', none)
  | refused e ↦ (rows, some e)
]
