-- ===== src/Tests/Retain.antt =====
-- A retained observation at concrete inputs.
use where_token.Base.{◌≡◌, refl, List, [], ◌∷◌, true, if◌then◌else◌, any_of, select}
use where_token.Base.Int.{pos, ◌+ℤ◌}
use where_token.Base.Text.{bytes, text_eq}
use where_token.Event.{UsageEvent}
use where_token.Profile.Retain.{
  ObservationDay, events_from_days, apply_retained_events, account_fetch_failed, source_error,
  after_prefix, is_fresh,
}
use where_token.Profile.Retain.Laws.{
  Count, source_sum, is_retained_row, is_of, source_sum-apply_retained_events,
}
use where_token.Tests.Data.{request}

abbrev seen_day : ObservationDay
seen_day = record {
  day = bytes "2026-01-02";
  miss = pos 40;
  cache_read = pos 3;
  cache_create = pos 2;
  output = pos 5;
}

abbrev local : List UsageEvent
local = record (request (bytes "r1") (pos 9)) { source = bytes "cursor" } ∷ []

source_sum-apply_retained_events_example :
    let retained = events_from_days (bytes "cursor") (seen_day ∷ []) in
    source_sum Count.miss (bytes "cursor") (apply_retained_events local retained)
    ≡ source_sum Count.miss
        (bytes "cursor")
        (if any_of (is_of (bytes "cursor")) retained then select is_retained_row local else local)
      +ℤ source_sum Count.miss (bytes "cursor") retained
source_sum-apply_retained_events_example =
    source_sum-apply_retained_events (bytes "cursor") refl Count.miss (bytes "cursor") local
      (seen_day ∷ [])

failed_fetch :
    account_fetch_failed local (bytes "codex: no" ∷ bytes "cursor: 401" ∷ []) (bytes "cursor")
    ≡ true
unfolding account_fetch_failed any_of is_fresh source_error after_prefix text_eq
failed_fetch = refl
