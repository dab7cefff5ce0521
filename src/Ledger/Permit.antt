-- ===== src/Ledger/Permit.antt =====
-- internal/ledger/ledger.go: the one publication permit, kept in two rows of `meta`, and the net
-- drop of tokens that it stands for.
pub mod Laws
use where_token.Base.{
  Bool, true, false, ◌&&◌, ◌||◌, Option, none, some, List, [], ◌∷◌, if◌then◌else◌,
}
use where_token.Base.Int.{ℤ, pos, ltb_ℤ, leb_ℤ, eqb_ℤ}
use where_token.Base.Int64.{max_int64, min_int64, add64, sub64}
use where_token.Base.Text.{Text, bytes, is_empty, trim_space}
use where_token.Base.Decimal.{format_int, parse_int}
use where_token.Base.Dict.{Dict, get, put, remove}
use where_token.Ledger.Store.Tables.{Ledger}
use where_token.Ledger.Tx.{Tx, ◌>>=◌, ◌>>◌, pure, reject, gets, modify, or_reject}

-- `metaPermitReason`
abbrev pub meta_permit_reason : Text
meta_permit_reason = bytes "correction_permit_reason"

-- `metaPermitDelta`
abbrev pub meta_permit_delta : Text
meta_permit_delta = bytes "correction_permit_delta"

abbrev pub check_permit : Text → Option ℤ → Option (Text × ℤ)
check_permit reason none = none
check_permit reason (some delta) =
    if leb_ℤ delta (pos 0) || is_empty (trim_space reason) then none else some (reason, delta)

abbrev pub read_delta : Text → Option Text → Option (Text × ℤ)
read_delta reason none = none
read_delta reason (some delta_text) = check_permit reason (parse_int (trim_space delta_text))

-- `readPermitTx`, `CorrectionPermit`; `none` is no permit
unfoldable pub read_permit : Dict Text → Option (Text × ℤ)
read_permit meta = elim (get meta_permit_reason meta) [
  | none ↦ none
  | some reason ↦ read_delta reason (get meta_permit_delta meta)
]

-- `writePermitTx`
unfoldable pub write_permit : Text → ℤ → Dict Text → Dict Text
write_permit reason delta meta =
    put meta_permit_delta (format_int delta) (put meta_permit_reason reason meta)

-- `deletePermitTx`, `ClearCorrectionPermit`
unfoldable pub delete_permit : Dict Text → Dict Text
delete_permit meta = remove meta_permit_delta (remove meta_permit_reason meta)

abbrev pub base_of : Option ℤ → ℤ
base_of none = pos 0
base_of (some delta) = delta

-- the overflow test of `permitAfter`
unfoldable pub too_large : ℤ → ℤ → Bool
too_large base token_delta =
    eqb_ℤ token_delta min_int64
    || (ltb_ℤ token_delta (pos 0) && ltb_ℤ (add64 max_int64 token_delta) base)

-- `permitAfter`; `none` is the rejection
unfoldable pub permit_after : Option ℤ → ℤ → Option ℤ
permit_after old token_delta =
    if too_large (base_of old) token_delta then none else some (sub64 (base_of old) token_delta)

abbrev pub old_delta : Option (Text × ℤ) → Option ℤ
old_delta none = none
old_delta (some (_, delta)) = some delta

abbrev pub old_reason : Option (Text × ℤ) → Text
old_reason none = []
old_reason (some (reason, _)) = reason

-- the writes of `adjustPermit`, when the new amount is known
unfoldable pub settle_permit : Text → Option (Text × ℤ) → ℤ → Dict Text → Dict Text
settle_permit reason old next meta =
    if leb_ℤ next (pos 0)
    then delete_permit meta
    else let use' = if is_empty (trim_space reason) then old_reason old else trim_space reason in
      if is_empty (trim_space use') then delete_permit meta else write_permit use' next meta

-- `adjustPermit`
unfoldable pub adjust_permit : Text → ℤ → Tx (Unit {0})
adjust_permit reason token_delta = do
  old ← gets (λ l. read_permit l.meta)
  next ← or_reject (permit_after (old_delta old) token_delta)
  modify (λ l. record l { meta = settle_permit reason old next l.meta })
