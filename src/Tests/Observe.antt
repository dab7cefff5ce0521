-- ===== src/Tests/Observe.antt =====
-- The account-API observations and the Cursor association at concrete inputs.
use where_token.Base.{
  select, ◌*◌, ◌≡◌, refl, inr, false, none, some, List, [], ◌∷◌, if◌then◌else◌, any_of,
}
use where_token.Base.Int.{ℤ, pos, ◌+ℤ◌, ◌-ℤ◌}
use where_token.Base.Int64.{add64, wrap64}
use where_token.Base.Text.{Text, bytes, text_eq, has_prefix, trim_space, trim_left, trim_right}
use where_token.Base.Decimal.{digits, format_int, format_nat}
use where_token.Base.Dict.{Dict, get, put}
use where_token.Base.Order.{text_leb, insert_by, sort_by}
use where_token.Event.{Derivation, Time, UsageEvent}
use where_token.Event.Clock.{
  utc_day, rfc3339, rfc3339_nano, fraction, is_zero_time, day_start, days_before, day_number,
}
use where_token.Profile.Calendar.{
  hour, date_of, format_date, parse_date, year_of, month_from, wall, days_in,
}
use where_token.Ledger.Observe.{
  group_days, group_from, is_kept, lines_text, day_line, sum_days, note_covered_window, window_hash,
  save_observation, meta_of,
}
use where_token.Ledger.Observe.Tables.{
  day_sum, is_blank, Observations, WindowAudit, insert_observation, is_under, is_day_of,
  observation_days, dated_asc, has_row, no_observations,
}
use where_token.Ledger.Observe.Chain.{
  observations_asc, within, is_window, chain_day_map, account_supplement, covered_ranges, is_cached,
  skipped_day, retained_event, cached_event,
}
use where_token.Ledger.Observe.Chain.Laws.{
  last_row, speaks, last_word, or_before, get-chain_day_map,
}
use where_token.Ledger.Observe.Chain.Events.{named, shown, latest_row, account_supplement-named}
use where_token.Ledger.Observe.Audit.{
  note_window_audit, window_audit, window_audit-note_window_audit, same_window, replace_audit,
}
use where_token.Ledger.Observe.Save.{day_total, counted}
use where_token.Ledger.Observe.Window.{IsOwned, IsLatest}
use where_token.Ledger.Observe.Note.{noted, kept_days, saved, note_covered_window-latest}
use where_token.Ledger.Observe.Repeat.{Steps, note_covered_window_again}
use where_token.Ledger.Observe.Reach.{covers, Step, Reachable, Reachable-IsOwned}
use where_token.Ledger.CursorLink.{
  HistorySummary, CursorLink, commit_cursor_link, run_links, read, confirm, put_all, is_answer,
  meta_secret, has_text,
}
use where_token.Ledger.CursorLink.Name
use where_token.Ledger.CursorLink.Laws.{Held, run_links-Held}
use where_token.Tests.Data.{digest, request}

-- noon of 2024-02-29, and of the next day
abbrev leap_day : Time
leap_day = pos 1709208000000000000

abbrev next_day : Time
next_day = pos 1709294400000000000

noon : day_start (bytes "2024-02-29") +ℤ pos (12 * hour) ≡ leap_day
unfolding day_start parse_date day_number days_before days_in ◌+ℤ◌ ◌-ℤ◌
noon = refl

day_of_noon : utc_day leap_day ≡ bytes "2024-02-29"
unfolding utc_day date_of year_of month_from format_date wall ◌+ℤ◌ days_in
day_of_noon = refl

stamp : rfc3339_nano (pos 1709208061020000000) ≡ bytes "2024-02-29T12:01:01.02Z"
unfolding rfc3339_nano fraction utc_day date_of year_of month_from format_date wall ◌+ℤ◌ days_in
stamp = refl

-- The stamp of a whole second sorts after the stamps of the fractions of that second.
stamps_out_of_order :
    text_leb (rfc3339_nano (pos 1709208000000000000)) (rfc3339_nano (pos 1709208000500000000))
    ≡ false
unfolding text_leb rfc3339_nano fraction utc_day date_of year_of month_from format_date wall ◌+ℤ◌
    days_in
stamps_out_of_order = refl

abbrev api_event : Time → ℤ → UsageEvent
api_event at miss = record (request (bytes "r1") miss) {
  source = bytes "cursor";
  timestamp = at;
  derivation = Derivation.provider_api;
}

-- one observation, of the two days
abbrev two_days : List UsageEvent
two_days = api_event leap_day (pos 100) ∷ api_event next_day (pos 40) ∷ []

abbrev first_save : Observations
first_save =
    saved digest (bytes "cursor") (bytes "api") (bytes "complete") leap_day (group_days two_days)
      no_observations

first_save_ok :
    save_observation digest
      (bytes "cursor")
      (bytes "api")
      (bytes "complete")
      leap_day
      two_days
      no_observations
    ≡ some first_save
unfolding save_observation group_days group_from sort_by insert_by text_leb get put sum_days day_sum
    add64 wrap64 ◌+ℤ◌ utc_day date_of year_of month_from format_date wall days_in is_zero_time
    text_eq
first_save_ok = refl

Reachable-IsOwned_example : IsOwned first_save
Reachable-IsOwned_example = Reachable-IsOwned digest (
    Reachable.next Reachable.start (
      Step.saves (bytes "cursor") (bytes "api") (bytes "complete") leap_day two_days first_save_ok))

-- a later, narrower window
abbrev today : Time
today = pos 1709380800000000000

abbrev corrected : List UsageEvent
corrected = api_event next_day (pos 55) ∷ []

abbrev march : Text
march = bytes "2024-03-01"

abbrev second_save : Observations
second_save = noted digest today (bytes "cursor") march march corrected first_save

window_ok :
    note_covered_window digest today (bytes "cursor") march march corrected first_save
    ≡ some second_save
unfolding note_covered_window text_leb
window_ok = refl

is_latest : IsLatest (rfc3339_nano today) first_save
unfolding insert_observation any_of rfc3339_nano fraction text_leb utc_day date_of year_of
    month_from format_date wall ◌+ℤ◌ days_in meta_of
is_latest = (refl, tt)

window_is_new :
    has_row
      (bytes "cursor")
      (window_hash digest march march (kept_days march march corrected))
      first_save.observations
    ≡ false
unfolding insert_observation any_of is_under text_eq lines_text day_line group_days group_from
    sort_by insert_by text_leb get put sum_days day_sum add64 wrap64 ◌+ℤ◌ utc_day date_of year_of
    month_from format_date wall days_in is_zero_time select is_kept is_blank digits format_nat
    format_int
window_is_new = refl

note_covered_window-latest_example : latest_row (bytes "cursor") march second_save ≡ (
    if within march march march
    then counted (day_total march corrected)
    else latest_row (bytes "cursor") march first_save)
note_covered_window-latest_example =
    note_covered_window-latest digest today (bytes "cursor") march march march corrected first_save
      second_save Reachable-IsOwned_example is_latest window_is_new window_ok

-- another content of the window, and then the first one again
abbrev third_save : Observations
third_save = noted digest today (bytes "cursor") march march [] second_save

other_content :
    note_covered_window digest today (bytes "cursor") march march [] second_save ≡ some third_save
unfolding note_covered_window text_leb
other_content = refl

note_covered_window_again_example :
    note_covered_window digest today (bytes "cursor") march march corrected third_save
    ≡ some third_save
note_covered_window_again_example =
    note_covered_window_again digest today today (bytes "cursor") march march corrected corrected
      first_save second_save third_save window_ok
      (Steps.more (covers today (bytes "cursor") march march [] other_content) Steps.done) refl

account_supplement-named_example :
    (named (bytes "retained:2024-02-29") (
        account_supplement (bytes "cursor") (record { from = march; to = march }) [] [] second_save)
      ≡ (if is_cached
            (record { from = march; to = march })
            (covered_ranges (bytes "cursor") second_save)
            (bytes "2024-02-29")
          then []
          else shown
              (skipped_day (bytes "cursor") [] [] (bytes "2024-02-29"))
              (retained_event (bytes "cursor") (bytes "2024-02-29"))
              (latest_row (bytes "cursor") (bytes "2024-02-29") second_save)))
    × (named (bytes "cursor-api:covered:2024-02-29") (
          account_supplement
            (bytes "cursor")
            (record { from = march; to = march })
            []
            []
            second_save)
        ≡ (if is_cached
              (record { from = march; to = march })
              (covered_ranges (bytes "cursor") second_save)
              (bytes "2024-02-29")
            then shown
                (skipped_day (bytes "cursor") [] [] (bytes "2024-02-29"))
                (cached_event (bytes "cursor") (bytes "2024-02-29"))
                (latest_row (bytes "cursor") (bytes "2024-02-29") second_save)
            else []))
account_supplement-named_example =
    account_supplement-named (bytes "cursor") (bytes "2024-02-29")
      (record { from = march; to = march }) [] [] second_save refl

get-chain_day_map_example :
    get march (chain_day_map (observations_asc (bytes "cursor") [] second_save))
    ≡ or_before (last_word march (observations_asc (bytes "cursor") [] second_save)) none
get-chain_day_map_example =
    get-chain_day_map march (observations_asc (bytes "cursor") [] second_save)

-- the check of the window
abbrev checked : WindowAudit
checked = record {
  from = march;
  to = march;
  declared = pos 1;
  raw_rows = pos 1;
  deduped = pos 1;
  days = pos 1;
  miss = pos 55;
  cache_read = pos 7;
  cache_create = pos 0;
  output = pos 5;
  validation = bytes "ok";
}

abbrev audited : Observations
audited = record no_observations {
  audits =
      record { source = bytes "cursor"; audit = checked; observed_at = rfc3339_nano today } ∷ [];
}

audit_ok : note_window_audit today (bytes "cursor") checked no_observations ≡ some audited
unfolding note_window_audit text_leb text_eq replace_audit
audit_ok = refl

window_audit-note_window_audit_example : window_audit (bytes "cursor") march march audited ≡ (
    if same_window (bytes "cursor") checked (bytes "cursor") march march
    then checked
    else window_audit (bytes "cursor") march march no_observations)
window_audit-note_window_audit_example =
    window_audit-note_window_audit today (bytes "cursor") checked no_observations audited
      (bytes "cursor") march march audit_ok

-- a declined association, and what later answers leave of it
abbrev declined : Dict Text
declined =
    (Name.decision, bytes "declined")
    ∷ (Name.baseline, bytes "b1")
    ∷ (Name.decision_subject, bytes "user-1")
    ∷ []

abbrev history : HistorySummary
history = record { tokens = pos 10; from = march; to = march; days = 1; baseline = bytes "b2" }

abbrev answer : Text → Text → CursorLink
answer subject decision = record { subject = subject; decision = decision; at = today }

declined-Held : Held (bytes "user-1") (bytes "b1") declined
unfolding read get text_eq
declined-Held = record { subject = refl; baseline = refl; decision = inr refl }

run_links-Held_example : Held (bytes "user-1") (bytes "b1") (
    run_links
      ((history, answer (bytes "user-2") (bytes "confirmed"))
        ∷ (history, answer (bytes "user-1") (bytes "confirmed"))
        ∷ [])
      declined)
run_links-Held_example =
    run_links-Held (bytes "user-1") (bytes "b1") refl refl
      ((history, answer (bytes "user-2") (bytes "confirmed"))
        ∷ (history, answer (bytes "user-1") (bytes "confirmed"))
        ∷ [])
      declined declined-Held

-- the confirmation of the same account goes through
confirmed_now :
    read Name.decision
      (run_links ((history, answer (bytes "user-1") (bytes "confirmed")) ∷ []) declined)
    ≡ bytes "confirmed"
unfolding run_links commit_cursor_link confirm put_all put read get text_eq is_answer meta_secret
    has_text has_prefix any_of trim_space trim_left trim_right rfc3339 utc_day date_of year_of
    month_from format_date wall ◌+ℤ◌ days_in is_zero_time
confirmed_now = refl

-- A window that returns to an earlier content after another one reads back as the other one.
abbrev reverted : Observations
reverted =
    noted digest today (bytes "cursor") march march corrected (
      noted digest today (bytes "cursor") march march (api_event next_day (pos 60) ∷ [])
        second_save)

miss_of_reverted :
    latest_row (bytes "cursor") march reverted
    ≡ some (record {
      day = march;
      miss = pos 60;
      cache_read = pos 7;
      cache_create = pos 0;
      output = pos 5;
    })
unfolding insert_observation any_of is_under text_eq lines_text day_line group_days group_from
    sort_by insert_by text_leb get put sum_days day_sum add64 wrap64 ◌+ℤ◌ utc_day date_of year_of
    month_from format_date wall days_in is_zero_time select is_kept is_blank digits format_nat
    format_int last_word last_row speaks is_window within observations_asc dated_asc
    observation_days is_day_of rfc3339_nano fraction meta_of
miss_of_reverted = refl
