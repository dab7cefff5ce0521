-- ===== src/Ledger/CursorLink/Name.antt =====
-- internal/ledger/cursor_link.go: the keys of the association in the meta table.
use where_token.Base.Text.{Text, bytes}

abbrev pub subject : Text
subject = bytes "cursor_account_subject"

abbrev pub decision : Text
decision = bytes "cursor_history_decision"

abbrev pub audit_source : Text
audit_source = bytes "cursor_history_audit_source"

abbrev pub audit_at : Text
audit_at = bytes "cursor_history_audit_at"

abbrev pub baseline : Text
baseline = bytes "cursor_history_baseline"

abbrev pub decision_subject : Text
decision_subject = bytes "cursor_history_decision_subject"

abbrev pub hint : Text
hint = bytes "cursor_history_account_hint"
