-- ===== src/Ledger/Omit.antt =====
-- `NoteComplete` and `Unseen` of internal/ledger/ledger.go: facts that a complete reread of their
-- session no longer has, and the stored facts that a scan adds to what it read.
pub mod Laws
use where_token.Base.{
  Bool, true, false, not, ◌&&◌, ◌||◌, Option, none, some, List, [], ◌∷◌, if◌then◌else◌, any_of,
}
use where_token.Base.Text.{Text, text_eq, is_empty}
use where_token.Base.Dict.{member}
use where_token.Event.{UsageEvent, is_provider_api, is_retained}
use where_token.Ledger.Key.{key}
use where_token.Ledger.Fact.{Fact, event}
use where_token.Ledger.Store.Tables.{Row, Ledger}

-- the events that the loop of `NoteComplete` passes over
unfoldable pub is_no_reread : UsageEvent → Bool
is_no_reread e =
    is_provider_api e.derivation || e.skip_request || is_empty e.source || is_empty e.session_id

abbrev pub with_key : Option Text → List Text → List Text
with_key none ids = ids
with_key (some id) ids = id ∷ ids

-- `present`
unfoldable pub present_ids : List UsageEvent → List Text
present_ids [] = []
present_ids (e ∷ events) =
    let rest = present_ids events in if is_no_reread e then rest else with_key (key e) rest

-- `sess`
abbrev pub Session : Type 0
Session = Text × Text

-- `sessions`
unfoldable pub sessions_of : List UsageEvent → List Session
sessions_of [] = []
sessions_of (e ∷ events) =
    let rest = sessions_of events in
    if is_no_reread e then rest else (e.source, e.session_id) ∷ rest

-- WHERE source = ? AND session_id = ?
abbrev pub of_session : Row → Session → Bool
of_session r (source, session) = text_eq r.fact.source source && text_eq r.fact.session_id session

-- `missing`
unfoldable pub missing_of : List Text → Session → List Row → List Text
missing_of present s [] = []
missing_of present s (r ∷ rows) =
    let rest = missing_of present s rows in
    if of_session r s && not (member r.fact.id present) then r.fact.id ∷ rest else rest

-- DELETE FROM omissions WHERE id = ?, for each id
unfoldable pub delete_ids : List Text → List Text → List Text
delete_ids present [] = []
delete_ids present (id ∷ omissions) =
    let rest = delete_ids present omissions in if member id present then rest else id ∷ rest

-- INSERT OR IGNORE INTO omissions, for each id
unfoldable pub insert_ids : List Text → List Text → List Text
insert_ids [] omissions = omissions
insert_ids (id ∷ ids) omissions =
    let rest = insert_ids ids omissions in if member id rest then rest else id ∷ rest

unfoldable pub omit_sessions : List Text → List Session → List Row → List Text → List Text
omit_sessions present [] rows omissions = omissions
omit_sessions present (s ∷ sessions) rows omissions =
    omit_sessions present sessions rows (insert_ids (missing_of present s rows) omissions)

-- `NoteComplete`; with no session there is nothing to write
unfoldable pub note_complete : List UsageEvent → Ledger → Ledger
note_complete events l =
    let present = present_ids events in
    record l {
      omissions =
          omit_sessions present (sessions_of events) l.rows (delete_ids present l.omissions);
    }

-- `seen`
unfoldable pub seen_ids : List UsageEvent → List Text
seen_ids [] = []
seen_ids (e ∷ events) = with_key (key e) (seen_ids events)

-- `api`
unfoldable pub api_sources : List UsageEvent → List Text
api_sources [] = []
api_sources (e ∷ events) =
    let rest = api_sources events in
    if (is_provider_api e.derivation || is_retained e.derivation) && not (is_empty e.source)
    then e.source ∷ rest
    else rest

-- the row is passed over
unfoldable pub is_left_out : List Text → List Text → List Text → Row → Bool
is_left_out omitted api seen r =
    member r.fact.id omitted || member r.fact.source api || member r.fact.id seen

unfoldable pub unseen_rows : List Text → List Text → List Text → List Row → List UsageEvent
unseen_rows omitted api seen [] = []
unseen_rows omitted api seen (r ∷ rows) =
    let rest = unseen_rows omitted api seen rows in
    if is_left_out omitted api seen r then rest else event r.fact ∷ rest

-- `Unseen`
unfoldable pub unseen : List UsageEvent → Ledger → List UsageEvent
unseen emitted l = unseen_rows l.omissions (api_sources emitted) (seen_ids emitted) l.rows
