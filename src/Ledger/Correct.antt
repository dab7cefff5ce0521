-- ===== src/Ledger/Correct.antt =====
-- internal/ledger/ledger.go: `Correct` and `Revert`, the only operations that lower a stored count.
pub mod Laws
pub mod Undo
use where_token.Base.{
  ℕ, ◌+◌, ◌-◌, Bool, true, false, not, ◌&&◌, ◌||◌, ◌==◌, Option, none, some, List, [], ◌∷◌, ◌++◌,
  if◌then◌else◌, ltb, leb, length, any_of, map,
}
use where_token.Base.Int.{ℤ, leb_ℤ, eqb_ℤ}
use where_token.Base.Int64.{sub64}
use where_token.Base.Text.{Text, bytes, is_empty, has_prefix, text_eq, trim_space}
use where_token.Event.{UsageEvent}
use where_token.Ledger.Key.{key}
use where_token.Ledger.Fact.{Fact, fact_from, fact_tokens}
use where_token.Ledger.Store.Tables.{Row, Side, Revision, Ledger, find, update}
use where_token.Ledger.Permit.{adjust_permit}
use where_token.Ledger.Tx.{Tx, ◌>>=◌, ◌>>◌, pure, reject, gets, modify, or_reject, commit, Result}

-- the bytes of "\r\n"
abbrev is_line_end : ℕ → Bool
is_line_end c = c == b'\r' || c == b'\n'

-- `cleanReason`
unfoldable pub clean_reason : Text → Option Text
clean_reason reason =
    let trimmed = trim_space reason in
    if is_empty trimmed || ltb 200 (length trimmed) || any_of is_line_end trimmed
    then none
    else some trimmed

abbrev pub side : ℤ → Fact → Side
side version f = record {
  version = version;
  hash = f.hash;
  model = f.model;
  vendor = f.vendor;
  ts = f.ts;
  miss = f.miss;
  cache_read = f.cache_read;
  cache_create = f.cache_create;
  output = f.output;
  reasoning = f.reasoning;
  quality = f.quality;
  derivation = f.derivation;
}

-- `insertRevision`
unfoldable pub insert_revision : Fact → Fact → ℤ → ℤ → Text → Tx (Unit {0})
insert_revision prev next prev_version next_version reason = modify (λ l. record l {
  revisions =
      record {
        fact_id = prev.id;
        reason = reason;
        prev = side prev_version prev;
        next = side next_version next;
      }
      ∷ l.revisions;
})

-- the columns that `writeFact` writes
unfoldable pub write_row : Fact → ℤ → Row → Row
write_row f version row = record row {
  fact = record row.fact {
    model = f.model;
    vendor = f.vendor;
    ts = f.ts;
    miss = f.miss;
    cache_read = f.cache_read;
    cache_create = f.cache_create;
    output = f.output;
    reasoning = f.reasoning;
    quality = f.quality;
    derivation = f.derivation;
    hash = f.hash;
  };
  parser_version = version;
}

-- `writeFact`
unfoldable pub write_fact : Fact → ℤ → Tx (Unit {0})
write_fact f version = modify (λ l. record l { rows = update f.id (write_row f version) l.rows })

-- the three writes with which `Correct` and `Revert` end
unfoldable pub replace : Row → Fact → ℤ → Text → Text → Tx Bool
replace cur next version reason permit_reason = do
  insert_revision cur.fact next cur.parser_version version reason
  write_fact next version
  adjust_permit permit_reason (sub64 (fact_tokens next) (fact_tokens cur.fact))
  pure true

-- `Correct` once the stored row is loaded
unfoldable pub correct_row : Row → Fact → ℤ → Text → Tx Bool
correct_row cur next version reason =
    if text_eq next.hash cur.fact.hash
    then pure false
    else if leb_ℤ version cur.parser_version
    then reject
    else replace cur next version reason reason

module _ (sha256_hex : Text → Text) where
  -- `Correct`: the result is whether a revision was written
  unfoldable pub correct : UsageEvent → Text → ℤ → Ledger → Result Bool × Ledger
  correct e reason version = commit do
    cleaned ← or_reject (clean_reason reason)
    id ← or_reject (key e)
    cur ← or_reject (← gets (λ l. find id l.rows))
    correct_row cur (fact_from sha256_hex e id) version cleaned

abbrev lower : ℕ → ℕ
lower c = if leb b'A' c && leb c b'Z' then c + 32 else c

-- reason LIKE 'revert:%', which SQLite compares without regard to the case of ASCII letters
unfoldable pub is_revert : Text → Bool
is_revert reason = has_prefix (map lower reason) (bytes "revert:")

-- the newest revision of the fact that is no revert
unfoldable pub last_correction : Text → List Revision → Option Revision
last_correction id [] = none
last_correction id (r ∷ revisions) =
    let rest = last_correction id revisions in
    if text_eq r.fact_id id && not (is_revert r.reason) then some r else rest

-- the previous payload, with the identity of the stored fact
unfoldable pub restored : Side → Fact → Fact
restored s cur = record cur {
  model = s.model;
  vendor = s.vendor;
  ts = s.ts;
  miss = s.miss;
  cache_read = s.cache_read;
  cache_create = s.cache_create;
  output = s.output;
  reasoning = s.reasoning;
  quality = s.quality;
  derivation = s.derivation;
  hash = s.hash;
}

abbrev pub revert_reason : Text → Text
revert_reason reason =
    if has_prefix reason (bytes "revert:") then reason else bytes "revert:" ++ reason

unfoldable pub revert_row : Row → Revision → Text → Tx Bool
revert_row cur r reason =
    if not (text_eq cur.fact.hash r.next.hash) || not (eqb_ℤ cur.parser_version r.next.version)
    then pure false
    else replace cur (restored r.prev cur.fact) r.prev.version reason []

-- `Revert`
unfoldable pub revert : Text → Text → Ledger → Result Bool × Ledger
revert fact_id reason = commit do
  cleaned ← or_reject (clean_reason reason)
  cur ← or_reject (← gets (λ l. find fact_id l.rows))
  r ← or_reject (← gets (λ l. last_correction fact_id l.revisions))
  revert_row cur r (revert_reason cleaned)
