-- ===== src/Tests/Sync.antt =====
-- The batches of a device and the usage table at concrete inputs.
use where_token.Base.{select, is_some, any_of, ◌≡◌, refl, none, some, [], ◌∷◌}
use where_token.Base.Int.{ℤ, pos, ◌+ℤ◌, max_ℤ}
use where_token.Base.Int64.{add64, wrap64}
use where_token.Base.Text.{Text, bytes, text_eq}
use where_token.Event.Clock.{is_zero_time}
use where_token.Profile.Calendar.{date_of, format_date, year_of, month_from, wall, days_in}
use where_token.Sync.{DailyModel, device_local, source_key_hash, scope_of}
use where_token.Sync.Store.{
  UsageRow, same_daily, same_row, find_row, apply_row, apply_rows, apply_usage,
}
use where_token.Sync.Store.Laws.{IsKept, apply_usage-IsKept}
use where_token.Sync.Batch.{
  BuildInput, batch_merge, batch_merge_from, merge_into, batch_max_event, row_of, rows_from,
  hash_for, local_day, add_daily, add_counts,
}
use where_token.Sync.Batch.Rows.{find_daily}
use where_token.Sync.Batch.Keys.{belongs}
use where_token.Sync.Batch.Sums.{Field, field_or_zero, exact_sum, field-batch_rows}
use where_token.Tests.Data.{request}

abbrev pub daily : ℤ → ℤ → ℤ → DailyModel
daily miss output revision = record {
  date = bytes "2026-01-02";
  tool = bytes "codex";
  source_scope = device_local;
  source_key_hash = bytes "h";
  vendor = bytes "openai";
  model = bytes "m";
  miss = miss;
  cache_read = pos 0;
  cache_create = pos 0;
  output = output;
  requests = pos 1;
  user_turns = pos 0;
  quality = bytes "authoritative";
  derivation = bytes "raw";
  revision = revision;
}

abbrev stored : UsageRow
stored = record {
  user_id = pos 1;
  device_id = pos 7;
  daily = daily (pos 100) (pos 5) (pos 3);
  writer_device_id = pos 7;
}

stored_found : find_row (pos 1) (pos 7) (daily (pos 0) (pos 0) (pos 0)) (stored ∷ []) ≡ some stored
unfolding find_row same_row same_daily text_eq
stored_found = refl

apply_usage-IsKept_example :
    IsKept
      (pos 1)
      (pos 7)
      (daily (pos 0) (pos 0) (pos 0))
      stored
      (apply_usage (pos 1) (pos 7) (daily (pos 120) (pos 6) (pos 4) ∷ []) (stored ∷ [])).0
apply_usage-IsKept_example =
    apply_usage-IsKept (pos 1) (pos 7) (pos 1) (pos 7) (daily (pos 0) (pos 0) (pos 0))
      (daily (pos 120) (pos 6) (pos 4) ∷ []) (stored ∷ []) stored stored_found

-- A row of the stored revision with other counts beside the misses is taken for a repeat.
same_revision_other_output :
    apply_usage (pos 1) (pos 7) (daily (pos 100) (pos 999) (pos 3) ∷ []) (stored ∷ [])
    ≡ (stored ∷ [], none)
unfolding apply_usage apply_rows apply_row find_row same_row same_daily text_eq
same_revision_other_output = refl

-- in place of HMAC-SHA-256
abbrev hmac : Text → Text → Text
hmac key text = text

abbrev input : BuildInput
input = record {
  device_id = bytes "d1";
  loc = some (pos 480);
  user_hash_key = bytes "0123456789abcdef0123456789abcdef";
  account_stable_id = [];
  revision = pos 1;
  events =
      request (bytes "r1") (pos 100)
      ∷ request (bytes "r1") (pos 130)
      ∷ request (bytes "r2") (pos 9)
      ∷ [];
  turns = [];
  sources = [];
}

abbrev only_row : DailyModel
only_row = record (daily (pos 139) (pos 10) (pos 1)) {
  date = bytes "1970-01-01";
  source_key_hash = bytes "wheretoken/v1/codex/device_local/d1";
  cache_read = pos 14;
  requests = pos 2;
}

rows_ok : rows_from hmac input (pos 480) [] (batch_merge input.events) ≡ some (only_row ∷ [])
unfolding rows_from row_of hash_for source_key_hash scope_of local_day is_zero_time batch_merge_from
    merge_into batch_max_event add_daily add_counts same_daily text_eq add64 wrap64 ◌+ℤ◌ max_ℤ
    date_of year_of month_from format_date wall days_in
rows_ok = refl

field-batch_rows_example :
    (field_or_zero Field.output (find_daily only_row (only_row ∷ []))
      ≡ wrap64 (
          exact_sum Field.output
            (select (belongs hmac input (pos 480) only_row) (batch_merge input.events))))
    × (is_some (find_daily only_row (only_row ∷ []))
        ≡ any_of (belongs hmac input (pos 480) only_row) (batch_merge input.events))
field-batch_rows_example =
    field-batch_rows hmac input (pos 480) Field.output only_row (only_row ∷ []) rows_ok
