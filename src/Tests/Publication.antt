-- ===== src/Tests/Publication.antt =====
-- The theorems on the publication gates at concrete inputs.
use where_token.Base.Int64.{wrap64, sub64}
use where_token.Base.Dict.{put, get}
use where_token.Base.{
  ℕ, ◌+◌, ◌⊎◌, arith, ◌≤◌, ◌*◌, ◌≡◌, refl, Bool, true, false, Option, none, some, [], ◌∷◌,
}
use where_token.Base.Int.{◌+ℤ◌, ◌-ℤ◌, ℤ, pos}
use where_token.Base.Text.{trim_right, trim_left, text_eq, trim_space, Text, bytes}
use where_token.Profile.Snapshot.{Reason, TokenSource, token_value, Status, Snapshot, Breakdown}
use where_token.Profile.Labels.{Action}
use where_token.Profile.Calendar.{
  wall, month_from, year_of, is_zero, days_in, parse_date, date_of, format_date, hour, Time,
}
use where_token.Profile.Publish.{
  retryable, growth, same_day, date_rollover, rollover, decide_growth, decide_known, decide_total,
  explains, Permit, VerifiedWall, PendingIntent, PublicationInput, decide_publication, owner_now,
}
use where_token.Profile.Publish.Laws.{
  IsSafe, is_publication, decide_publication_blocked, decide_publication-IsSafe, IsNextMidnight,
  decide_publication_wait,
}
use where_token.Profile.Keep.{
  lost_among, lost_measured_provider, coverage_rank, agents_from, measured_agent, held_among,
  should_replace_projection, measured_set_held, measured_in, agents_of,
}
use where_token.Profile.Keep.Laws.{
  should_replace_projection-held, should_replace_projection_of_held,
}
use where_token.Profile.Refresh.{
  already_remote, refresh_wall, refresh_from_publication, RefreshInput, decide_refresh,
  publication_input,
}
use where_token.Profile.Refresh.Laws.{decide_refresh-IsSafe}
use where_token.Profile.Refresh.Apply.{
  body_of, decision_after_put, after_put, uploaded_or_look, apply_decision, apply_fetched,
  RemoteView, Fetched, Publisher, apply_refresh, refresh_input,
}
use where_token.Profile.Refresh.Apply.Laws.{puts, IsUpload, apply_refresh-puts}
use where_token.Profile.Refresh.Apply.Verified.{claims_verified, IsWritten, apply_refresh-IsWritten}

abbrev codex : ℤ → Breakdown
codex total = record {
  id = bytes "codex";
  total = some total;
  total_status = Status.available;
  coverage = record {
    tokens = Status.available;
    token_source = TokenSource.other (bytes "local");
    token_window = none;
    reason = Reason.other [];
  };
}

abbrev snapshot : Text → Text → ℤ → Snapshot
snapshot id date total = record {
  snapshot_id = id;
  as_of_date = date;
  owner_utc_offset_minutes = some (pos 480);
  data_status = Status.available;
  total = some total;
  by_agent = codex total ∷ [];
}

-- 2026-03-10 20:30 in UTC+8
abbrev evening : Time
evening = record { instant = 63908742600 * 1000000000; zone = pos 0 }

abbrev github_wall : VerifiedWall
github_wall = record {
  proven = true;
  snapshot_id = bytes "w1";
  total = some (pos 500000);
  as_of_date = bytes "2026-03-10";
  published_at = record { instant = 0; zone = pos 0 };
}

abbrev idle : PendingIntent
idle = record { snapshot_id = []; due_at = none; reason = none; failed = false }

abbrev no_permit : Permit
no_permit = record { reason = []; delta = pos 0 }

abbrev input : Snapshot → PublicationInput
input candidate = record {
  candidate = candidate;
  accepted = some (snapshot (bytes "w1") (bytes "2026-03-10") (pos 500000));
  verified = github_wall;
  pending = idle;
  now = evening;
  theme_change = false;
  offline = false;
  from_worker = false;
  correction = no_permit;
}

not_explained : explains no_permit (pos 500000) (pos 400000) ≡ false
unfolding explains trim_space trim_left trim_right
not_explained = refl

total-lower :
    token_value (snapshot (bytes "c1") (bytes "2026-03-11") (pos 400000)) ≡ some (pos 400000)
unfolding token_value
total-lower = refl

decide_publication_blocked_example :
    (decide_publication (input (snapshot (bytes "c1") (bytes "2026-03-11") (pos 400000)))).action
    ≡ Action.blocked
decide_publication_blocked_example =
    decide_publication_blocked (input (snapshot (bytes "c1") (bytes "2026-03-11") (pos 400000)))
      (pos 400000) (pos 500000) refl refl total-lower (omega arith) not_explained

-- the next day, and the same day with growth
abbrev next_day : PublicationInput
next_day = input (snapshot (bytes "c2") (bytes "2026-03-11") (pos 500001))

abbrev same_evening : PublicationInput
same_evening = input (snapshot (bytes "c3") (bytes "2026-03-10") (pos 900000))

next_day-published : is_publication (decide_publication next_day).action ≡ true
unfolding decide_publication decide_total decide_known decide_growth rollover date_rollover
    token_value should_replace_projection lost_measured_provider lost_among measured_agent
    agents_from get put text_eq coverage_rank parse_date days_in trim_space trim_left trim_right
    explains sub64 wrap64 ◌-ℤ◌
next_day-published = refl

decide_publication-IsSafe_example : IsSafe next_day
decide_publication-IsSafe_example = decide_publication-IsSafe next_day next_day-published

same_evening-waits : (decide_publication same_evening).action ≡ Action.wait_until
unfolding decide_publication decide_total decide_known decide_growth rollover date_rollover
    token_value should_replace_projection lost_measured_provider lost_among measured_agent
    agents_from get put text_eq coverage_rank parse_date days_in trim_space trim_left trim_right
    explains sub64 wrap64 ◌-ℤ◌ same_day growth retryable owner_now wall ◌+ℤ◌ is_zero date_of year_of
    month_from format_date
same_evening-waits = refl

decide_publication_wait_example :
    (due : ℕ) × ((decide_publication same_evening).due_at ≡ some due)
    × IsNextMidnight (owner_now same_evening) due
    × (due ≤ (owner_now same_evening).instant + 4 * hour)
    × (text_eq same_evening.candidate.as_of_date (format_date (date_of (owner_now same_evening)))
        ≡ true)
decide_publication_wait_example = decide_publication_wait same_evening same_evening-waits

-- the client's view of the next day
abbrev seen : RemoteView
seen = record {
  found = true;
  snapshot = snapshot (bytes "w1") (bytes "2026-03-10") (pos 500000);
  updated_at = evening;
  wall_known = true;
  wall = github_wall;
  pending = idle;
}

abbrev refresh : RefreshInput
refresh = refresh_input seen next_day.candidate evening no_permit

refresh-publishes : (decide_refresh refresh).publish ≡ true
unfolding decide_refresh refresh_from_publication publication_input refresh_wall refresh_input
    decide_publication decide_total decide_known decide_growth rollover date_rollover token_value
    should_replace_projection lost_measured_provider lost_among measured_agent agents_from get put
    text_eq coverage_rank parse_date days_in trim_space trim_left trim_right explains sub64 wrap64
    ◌-ℤ◌
refresh-publishes = refl

decide_refresh-IsSafe_example :
    let d = decide_publication (publication_input refresh) in
    (refresh.offline ≡ false)
    × ((d.action ≡ Action.publish_now)
        ⊎ ((d.action ≡ Action.wait_until) × (already_remote refresh.remote refresh.local ≡ false)))
    × IsSafe (publication_input refresh)
decide_refresh-IsSafe_example = decide_refresh-IsSafe refresh refresh-publishes

abbrev hosted : Publisher
hosted = record {
  fetched = λ _. Fetched.view seen;
  uploaded = λ _ _.
      some (record {
        status = 200;
        kept_previous = false;
        readme = bytes "materialized";
        reason = [];
      });
}

-- the package's Validate, Marshal and Sensitive at this snapshot
abbrev valid : Snapshot → Bool
valid _ = true

abbrev marshal : Snapshot → Option Text
marshal s = some s.snapshot_id

abbrev sensitive : Text → Bool
sensitive _ = false

apply_refresh-puts_example :
    let calls =
      (apply_refresh valid marshal sensitive hosted next_day.candidate evening no_permit false).1 in
    (puts calls ≡ [])
    ⊎ ((raw : Text) × (false ≡ false)
        × (puts calls ≡ raw ∷ [])
        × IsUpload valid marshal sensitive hosted next_day.candidate evening no_permit raw)
apply_refresh-puts_example =
    apply_refresh-puts valid marshal sensitive hosted next_day.candidate evening no_permit false

next_day-verified :
    claims_verified
      (apply_refresh valid marshal sensitive hosted next_day.candidate evening no_permit
        false).0.decision
    ≡ true
unfolding apply_refresh apply_fetched apply_decision uploaded_or_look after_put decision_after_put
    body_of decide_refresh refresh_from_publication publication_input refresh_wall refresh_input
    decide_publication decide_total decide_known decide_growth rollover date_rollover token_value
    should_replace_projection lost_measured_provider lost_among measured_agent agents_from get put
    text_eq coverage_rank parse_date days_in trim_space trim_left trim_right explains sub64 wrap64
    ◌-ℤ◌
next_day-verified = refl

apply_refresh-IsWritten_example : (false ≡ false) × IsWritten valid marshal sensitive hosted
apply_refresh-IsWritten_example =
    apply_refresh-IsWritten valid marshal sensitive hosted next_day.candidate evening no_permit
      false next_day-verified

-- the data status of the next snapshot is weaker, and its one agent is held
abbrev prev : Snapshot
prev = snapshot (bytes "w1") (bytes "2026-03-10") (pos 500000)

abbrev partial_next : Snapshot
partial_next = record (snapshot (bytes "c4") (bytes "2026-03-10") (pos 500000)) {
  data_status = Status.partial;
}

partial_next-held : measured_set_held prev partial_next ≡ true
unfolding measured_set_held held_among measured_agent agents_from get put text_eq coverage_rank
partial_next-held = refl

codex-measured : measured_agent (codex (pos 500000)) ≡ true
unfolding measured_agent
codex-measured = refl

should_replace_projection-held_example :
    measured_in (get (bytes "codex") (agents_of partial_next)) ≡ true
should_replace_projection-held_example =
    should_replace_projection-held prev partial_next 0 (codex (pos 500000)) refl
      (should_replace_projection_of_held prev partial_next partial_next-held) refl codex-measured
