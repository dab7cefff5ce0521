-- ===== src/Ledger/Observe/Audit.antt =====
-- internal/ledger/observe.go: the count check of one filtered window, stored and looked up.
use where_token.Base.{
  ◌≡◌, refl, Bool, not, ◌&&◌, ◌||◌, Option, none, some, List, [], ◌∷◌, arith, if◌then◌else◌,
}
use where_token.Base.Int.{pos}
use where_token.Base.Text.{Text, bytes, text_eq, text_eq_iff, is_empty}
use where_token.Base.Order.{text_ltb}
use where_token.Event.{Time}
use where_token.Event.Clock.{rfc3339_nano}
use where_token.Ledger.Observe.Tables.{WindowAudit, AuditRow, Observations}

-- Has the row the primary key?
unfoldable pub is_audit_of : Text → Text → Text → AuditRow → Bool
is_audit_of source from to r =
    text_eq r.source source && text_eq r.audit.from from && text_eq r.audit.to to

-- INSERT OR REPLACE
unfoldable pub replace_audit : AuditRow → List AuditRow → List AuditRow
replace_audit row [] = row ∷ []
replace_audit row (r ∷ rows) =
    let rest = replace_audit row rows in
    if is_audit_of row.source row.audit.from row.audit.to r then row ∷ rows else r ∷ rest

unfoldable pub find_audit : Text → Text → Text → List AuditRow → Option WindowAudit
find_audit source from to [] = none
find_audit source from to (r ∷ rows) =
    let rest = find_audit source from to rows in
    if is_audit_of source from to r then some r.audit else rest

-- `NoteWindowAudit`, at the time `now`; `none` is the error
unfoldable pub note_window_audit : Time → Text → WindowAudit → Observations → Option Observations
note_window_audit now source a o =
    if is_empty source || is_empty a.from || is_empty a.to || text_ltb a.to a.from
    then none
    else if not (text_eq a.validation (bytes "ok")) && not (text_eq a.validation (bytes "open"))
    then none
    else some (record o {
      audits =
          replace_audit (record { source = source; audit = a; observed_at = rfc3339_nano now })
            o.audits;
    })

unfoldable pub missing : Text → Text → WindowAudit
missing from to = record {
  from = from;
  to = to;
  declared = pos 0;
  raw_rows = pos 0;
  deduped = pos 0;
  days = pos 0;
  miss = pos 0;
  cache_read = pos 0;
  cache_create = pos 0;
  output = pos 0;
  validation = bytes "missing";
}

abbrev pub or_missing : Text → Text → Option WindowAudit → WindowAudit
or_missing from to none = missing from to
or_missing from to (some a) = a

-- `Ledger.WindowAudit`
unfoldable pub window_audit : Text → Text → Text → Observations → WindowAudit
window_audit source from to o =
    if is_empty source || is_empty from || is_empty to
    then missing from to
    else or_missing from to (find_audit source from to o.audits)

-- the keys are the same
abbrev pub same_window : Text → WindowAudit → Text → Text → Text → Bool
same_window source a s from to = text_eq source s && text_eq a.from from && text_eq a.to to

find_audit-replace_audit :
    (row : AuditRow) (s from to : Text) (rows : List AuditRow)
    → find_audit s from to (replace_audit row rows) ≡ (
        if same_window row.source row.audit s from to
        then some row.audit
        else find_audit s from to rows)
unfolding find_audit replace_audit is_audit_of
find_audit-replace_audit row s from to [] = refl
find_audit-replace_audit row s from to (r ∷ rows) = ground (
  arith,
  find_audit-replace_audit row s from to rows,
  text_eq_iff r.source row.source,
  text_eq_iff r.audit.from row.audit.from,
  text_eq_iff r.audit.to row.audit.to,
  text_eq_iff r.source s,
  text_eq_iff r.audit.from from,
  text_eq_iff r.audit.to to,
  text_eq_iff row.source s,
  text_eq_iff row.audit.from from,
  text_eq_iff row.audit.to to,
)

-- After an accepted window check, looking up its window gives exactly that check, and looking up any
-- other window gives what it gave before.
pub window_audit-note_window_audit :
    (now : Time) (source : Text) (a : WindowAudit) (o o' : Observations) (s from to : Text)
    → note_window_audit now source a o ≡ some o'
    → window_audit s from to o'
      ≡ (if same_window source a s from to then a else window_audit s from to o)
unfolding note_window_audit window_audit
window_audit-note_window_audit now source a o o' s from to h = ground (
  arith,
  find_audit-replace_audit (record { source = source; audit = a; observed_at = rfc3339_nano now }) s
      from to o.audits,
  text_eq_iff source s,
  text_eq_iff a.from from,
  text_eq_iff a.to to,
)
