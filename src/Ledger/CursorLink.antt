-- ===== src/Ledger/CursorLink.antt =====
-- internal/ledger/cursor_link.go: the answer of a user who is asked whether the old account-API days
-- of Cursor belong to an account.
pub mod Name
pub mod Laws
use where_token.Base.{
  ◌*◌, ℕ, Bool, true, false, not, ◌&&◌, ◌||◌, ◌==◌, Option, none, some, List, [], ◌∷◌, ◌++◌,
  if◌then◌else◌, ltb, leb, length, any_of, map, ◌+◌,
}
use where_token.Base.Int.{ℤ, pos}
use where_token.Base.Int64.{add64}
use where_token.Base.Text.{Text, bytes, text_eq, is_empty, has_prefix, trim_space}
use where_token.Base.Decimal.{format_int, format_nat}
use where_token.Base.Dict.{Dict, get, put}
use where_token.Base.Order.{sort_texts}
use where_token.Event.{Time}
use where_token.Event.Clock.{rfc3339, is_zero_time}
use where_token.Ledger.Observe.{no_day, row_or_blank, lines_text, day_line, sum_days}
use where_token.Ledger.Observe.Tables.{DayComp, Observations}
use where_token.Ledger.Observe.Chain.{observations_asc, chain_day_map, listed}

-- the errors of `CommitCursorLink`, and that of `putMetaTx`
pub data LinkError : Type 0 where
  rejected account_mismatch history_conflict history_held meta_rejected : LinkError

pub data LinkResult : Type 0 where
  linked : Dict Text → LinkResult
  refused : LinkError → LinkResult

-- `CursorHistorySummary`, without the origins
pub record HistorySummary : Type 0 where
  pub tokens : ℤ
  pub from : Text
  pub to : Text
  pub days : ℕ
  pub baseline : Text

-- `CursorLink`
pub record CursorLink : Type 0 where
  pub subject : Text
  pub decision : Text
  pub at : Time

-- strings.ToLower, on ASCII bytes
abbrev pub lower : ℕ → ℕ
lower c = if leb b'A' c && leb c b'Z' then c + 32 else c

unfoldable pub has_text : Text → Text → Bool
has_text p [] = is_empty p
has_text p (c ∷ s) = has_prefix (c ∷ s) p || has_text p s

-- `metaSecret`
unfoldable pub meta_secret : Text → Bool
meta_secret value =
    has_text (bytes "eyj") (map lower value) || any_of (λ c. c == b'\r' || c == b'\n') value

-- `metaTx`
unfoldable pub read : Text → Dict Text → Text
read key meta = elim (get key meta) [ none ↦ [] | some v ↦ v ]

abbrev pub first_text : List Text → Text
first_text [] = []
first_text (t ∷ _) = t

unfoldable pub last_text : List Text → Text
last_text [] = []
last_text (t ∷ []) = t
last_text (_ ∷ t ∷ ts) = last_text (t ∷ ts)

-- the rows of the days
abbrev pub rows_of : Dict DayComp → List Text → List DayComp
rows_of days = map (λ day. record (row_or_blank day (get day days)) { day = day })

infixr 66 ◌bar◌
abbrev ◌bar◌ : Text → Text → Text
s bar t = s ++ (b'|' ∷ t)

module _ (sha256_hex : Text → Text) where
  -- `cursorHistorySummaryLocked`
  unfoldable pub cursor_history_summary : Observations → HistorySummary
  cursor_history_summary o =
      let days = chain_day_map (observations_asc (bytes "cursor") [] o) in
      let keys = sort_texts (listed (λ _. false) days) in
      let rows = rows_of days keys in
      let tokens = sum_days (pos 0) rows in
      if length keys == 0
      then record { tokens = pos 0; from = []; to = []; days = 0; baseline = [] }
      else record {
        tokens = tokens;
        from = first_text keys;
        to = last_text keys;
        days = length keys;
        baseline =
            format_int tokens
            bar first_text keys
            bar last_text keys
            bar format_nat (length keys)
            bar sha256_hex (lines_text (map day_line rows));
      }

-- `putMetaTx` of each write; the first refusal rolls all of them back
unfoldable pub put_all : List (Text × Text) → Dict Text → LinkResult
put_all [] meta = linked meta
put_all ((key, value) ∷ writes) meta =
    let rest = put_all writes (put key value meta) in
    if is_empty key || meta_secret value then refused meta_rejected else rest

abbrev pub kept_or : Text → Text → Text
kept_or prev new = if is_empty prev then new else prev

-- what an answer writes beside the account subject
abbrev pub answer_writes : Text → Text → Text → Time → Text → List (Text × Text)
answer_writes subject decision audit at baseline =
    (Name.decision, decision)
    ∷ (Name.audit_source, audit)
    ∷ (Name.audit_at, rfc3339 at)
    ∷ (Name.baseline, baseline)
    ∷ (Name.decision_subject, subject)
    ∷ []

abbrev pub is_confirmed : Text → Bool
is_confirmed = text_eq (bytes "confirmed")

abbrev pub is_declined : Text → Bool
is_declined = text_eq (bytes "declined")

-- the writes of the two answers; a baseline that is there stays
abbrev pub confirm_writes : Text → Time → Text → Dict Text → List (Text × Text)
confirm_writes subject at base meta =
    (Name.subject, subject)
    ∷ answer_writes subject (bytes "confirmed") (bytes "user_confirm") at
        (kept_or (read Name.baseline meta) base)

abbrev pub decline_writes : Text → Time → Text → Dict Text → List (Text × Text)
decline_writes subject at base meta =
    answer_writes subject (bytes "declined") (bytes "user_decline") at
      (kept_or (read Name.baseline meta) base)

-- the case "confirmed", for an account that no other one precedes
unfoldable pub confirm : Text → Time → Text → Dict Text → LinkResult
confirm subject at base meta =
    let prev_subject = read Name.subject meta in
    let prev_decision = read Name.decision meta in
    let prev_who = read Name.decision_subject meta in
    let hint = read Name.hint meta in
    let written =
      put_all
        ((Name.subject, subject)
          ∷ answer_writes subject (bytes "confirmed") (bytes "user_confirm") at
              (kept_or (read Name.baseline meta) base))
        meta in
    if not (is_empty hint) && not (text_eq hint subject)
    then refused history_conflict
    else if is_confirmed prev_decision && text_eq prev_who subject && text_eq prev_subject subject
    then linked meta
    else if is_confirmed prev_decision
    then refused account_mismatch
    else if is_declined prev_decision && not (is_empty prev_who) && not (text_eq prev_who subject)
    then refused history_held
    else written

-- the case "declined"
unfoldable pub decline : Text → Time → Text → Dict Text → LinkResult
decline subject at base meta =
    let prev_decision = read Name.decision meta in
    let prev_who = read Name.decision_subject meta in
    let written =
      put_all
        (answer_writes subject (bytes "declined") (bytes "user_decline") at
          (kept_or (read Name.baseline meta) base))
        meta in
    if is_confirmed prev_decision
    then linked meta
    else if is_declined prev_decision && text_eq prev_who subject
    then linked meta
    else if is_declined prev_decision && not (is_empty prev_who)
    then refused history_held
    else if not (is_empty (read Name.subject meta))
    then refused account_mismatch
    else written

-- the guards of `CommitCursorLink` on its input
unfoldable pub is_answer : CursorLink → Bool
is_answer link =
    let subject = trim_space link.subject in
    not (is_empty subject || ltb 200 (length subject) || meta_secret subject)
    && not (is_zero_time link.at)
    && (is_confirmed link.decision || is_declined link.decision)

abbrev pub has_history : HistorySummary → Bool
has_history summary = not (summary.days == 0 || is_empty summary.baseline)

-- `CommitCursorLink`, with what `cursorHistorySummaryLocked` returned
unfoldable pub commit_cursor_link : HistorySummary → CursorLink → Dict Text → LinkResult
commit_cursor_link summary link meta =
    let subject = trim_space link.subject in
    let prev_subject = read Name.subject meta in
    if not (is_answer link) || not (has_history summary)
    then refused rejected
    else if not (is_empty prev_subject) && not (text_eq prev_subject subject)
    then refused account_mismatch
    else if is_confirmed link.decision
    then confirm subject link.at summary.baseline meta
    else decline subject link.at summary.baseline meta

-- the meta table after an answer: a refusal rolls back
abbrev pub meta_after : Dict Text → LinkResult → Dict Text
meta_after meta (linked meta') = meta'
meta_after meta (refused _) = meta

-- a sequence of answers, each with the summary of its time
unfoldable pub run_links : List (HistorySummary × CursorLink) → Dict Text → Dict Text
run_links [] meta = meta
run_links ((summary, link) ∷ links) meta =
    run_links links (meta_after meta (commit_cursor_link summary link meta))
