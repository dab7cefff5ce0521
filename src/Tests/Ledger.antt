-- ===== src/Tests/Ledger.antt =====
-- The theorems on the ledger at concrete inputs.
use where_token.Base.Decimal.{digits, format_nat, format_int}
use where_token.Ledger.Fact.{event, fact_tokens, payload, hash_fact, fact_from}
use where_token.Event.{UsageEvent}
use where_token.Base.{
  map, select, ◌≤◌, arith, ℕ, ◌≡◌, refl, ◌⊎◌, Bool, true, false, none, some, List, [], ◌∷◌,
  if◌then◌else◌, ◌||◌, any_of,
}
use where_token.Base.Int.{◌+ℤ◌, pos, negsuc, ◌<ℤ◌, ◌-ℤ◌}
use where_token.Base.Int64.{wrap64, sub64, add64, Fits, max_int64}
use where_token.Base.Text.{
  trim_right, text_eq, trim_left, has_prefix, Text, bytes, is_empty, trim_space,
}
use where_token.Base.Dict.{remove, put, get, member}
use where_token.Ledger.Key.{split_at_separator, split_key, strip_session, suffix_of, key}
use where_token.Ledger.Store.{commit_usage, counts_nothing}
use where_token.Ledger.Store.Tables.{update, Row, Ledger, find}
use where_token.Ledger.Store.Commit.Growth.{Grown, commit_usage_idem, commit_usage-Grown}
use where_token.Ledger.Store.Commit.Cover.{Covers, commit_usage-Covers}
use where_token.Ledger.Tx.{Result, ok, err, correction_rejected}
use where_token.Ledger.Permit.{
  delete_permit, too_large, settle_permit, read_permit, write_permit, permit_after, adjust_permit,
}
use where_token.Ledger.Permit.Laws.{
  permit_after_exact, adjust_permit_lem, settled, amount, SameFacts,
}
use where_token.Ledger.Correct.{
  write_row, write_fact, insert_revision, replace, correct_row, clean_reason, correct, revert,
  is_revert,
}
use where_token.Ledger.Correct.Laws.{Corrected, correct-Corrected}
use where_token.Ledger.Correct.Undo.{revert_after_correct}
use where_token.Ledger.Omit.{unseen, note_complete, present_ids, sessions_of}
use where_token.Ledger.Omit.Laws.{stored_in, note_complete-member, unseen-note_complete, is_added}
use where_token.Tests.Data.{digest, request, id_of, row_of, two_rows}

abbrev scan : List UsageEvent
scan = request (bytes "r1") (pos 130) ∷ request (bytes "r3") (pos 9) ∷ []

find-r1 : find (id_of (bytes "r1")) two_rows.rows ≡ some (row_of (bytes "r1") (pos 100))
unfolding find text_eq fact_from
find-r1 = refl

find-r3 : find (id_of (bytes "r3")) two_rows.rows ≡ none
unfolding find text_eq fact_from
find-r3 = refl

key-r3 : key (request (bytes "r3") (pos 9)) ≡ some (id_of (bytes "r3"))
unfolding key suffix_of strip_session any_of has_prefix
key-r3 = refl

counts-r3 : counts_nothing (request (bytes "r3") (pos 9)) ≡ false
unfolding counts_nothing
counts-r3 = refl

commit_usage-Grown_example :
    (r' : Row) × (find (id_of (bytes "r1")) (commit_usage digest scan two_rows).rows ≡ some r')
    × Grown digest (row_of (bytes "r1") (pos 100)) r'
commit_usage-Grown_example =
    commit_usage-Grown digest scan two_rows (id_of (bytes "r1")) (row_of (bytes "r1") (pos 100))
      find-r1

commit_usage-Covers_example :
    (r : Row) × (find (id_of (bytes "r3")) (commit_usage digest scan two_rows).rows ≡ some r)
    × Covers (request (bytes "r3") (pos 9)) r.fact
commit_usage-Covers_example =
    commit_usage-Covers digest scan two_rows 1 (request (bytes "r3") (pos 9)) (id_of (bytes "r3"))
      refl counts-r3 key-r3 find-r3

commit_usage_idem_example :
    find (id_of (bytes "r1")) (commit_usage digest scan (commit_usage digest scan two_rows)).rows
    ≡ find (id_of (bytes "r1")) (commit_usage digest scan two_rows).rows
commit_usage_idem_example = commit_usage_idem digest scan two_rows (id_of (bytes "r1"))

-- a correction from 100 to 40 missed tokens
abbrev reason : Text
reason = bytes "double count"

abbrev run : Result Bool × Ledger
run = correct digest (request (bytes "r1") (pos 40)) reason (pos 2) two_rows

correct-Corrected_example :
    Corrected digest (request (bytes "r1") (pos 40)) reason (pos 2) two_rows run
correct-Corrected_example =
    correct-Corrected digest (request (bytes "r1") (pos 40)) reason (pos 2) two_rows

clean : clean_reason reason ≡ some reason
unfolding clean_reason trim_space trim_left trim_right any_of
clean = refl

key-r1 : key (request (bytes "r1") (pos 40)) ≡ some (id_of (bytes "r1"))
unfolding key suffix_of strip_session any_of has_prefix
key-r1 = refl

no_revert : is_revert reason ≡ false
unfolding is_revert has_prefix
no_revert = refl

run-ok : run ≡ (ok true, run.1)
unfolding correct correct_row replace insert_revision write_fact write_row adjust_permit
    settle_permit read_permit permit_after too_large write_permit delete_permit clean_reason
    trim_space trim_left trim_right any_of key suffix_of strip_session has_prefix find update
    text_eq get put remove fact_from hash_fact payload split_key split_at_separator format_int
    format_nat digits fact_tokens add64 sub64 wrap64 ◌+ℤ◌ ◌-ℤ◌
run-ok = refl

revert_after_correct_example :
    (l : Ledger) × (revert (id_of (bytes "r1")) reason run.1 ≡ (ok true, l))
    × ((j : Text) → find j l.rows ≡ find j two_rows.rows)
revert_after_correct_example =
    revert_after_correct digest (request (bytes "r1") (pos 40)) (id_of (bytes "r1")) reason reason
      reason reason (pos 2) two_rows run.1 run-ok key-r1 clean no_revert clean

trimmed : trim_space reason ≡ reason
unfolding trim_space trim_left trim_right
trimmed = refl

named : is_empty (trim_space reason) ≡ false
unfolding trim_space trim_left trim_right
named = refl

small : (n : ℕ) → n ≤ 1000 → Fits (pos n)
small n h = omega (arith, h)

permit_after_exact_example :
    ((permit_after (some (pos 60)) (pos 25) ≡ none) × (max_int64 <ℤ pos 60 -ℤ pos 25))
    ⊎ ((permit_after (some (pos 60)) (pos 25) ≡ some (pos 60 -ℤ pos 25)) × Fits (pos 60 -ℤ pos 25))
permit_after_exact_example =
    permit_after_exact (some (pos 60)) (pos 25) (omega arith) (omega arith) (omega arith)

adjust_permit_lem_example :
    let before = read_permit two_rows.meta in
    ((adjust_permit reason (negsuc 59) two_rows ≡ err correction_rejected)
      × (max_int64 <ℤ amount before -ℤ negsuc 59))
    ⊎ ((l : Ledger) × (adjust_permit reason (negsuc 59) two_rows ≡ ok (tt, l))
        × (read_permit l.meta ≡ settled reason before (amount before -ℤ negsuc 59))
        × SameFacts two_rows l
        × Fits (amount before -ℤ negsuc 59))
adjust_permit_lem_example = adjust_permit_lem reason (negsuc 59) two_rows trimmed (omega arith)

note_complete-member_example :
    member (id_of (bytes "r2")) (note_complete scan two_rows).omissions ≡ (
      if member (id_of (bytes "r2")) (present_ids scan)
      then false
      else member (id_of (bytes "r2")) two_rows.omissions
        || stored_in (id_of (bytes "r2")) (sessions_of scan) two_rows.rows)
note_complete-member_example = note_complete-member scan two_rows (id_of (bytes "r2"))

unseen-note_complete_example :
    unseen scan (note_complete scan two_rows)
    ≡ map (λ r. event r.fact) (select (is_added scan two_rows) two_rows.rows)
unseen-note_complete_example = unseen-note_complete scan two_rows
