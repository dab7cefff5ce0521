-- ===== src/Profile/Publish/Laws.antt =====
-- What the publication gate promises (internal/publicprofile/publish_policy.go).
use where_token.Base.{
  ℕ, suc, ◌+◌, ◌*◌, ◌/◌, ◌%◌, ◌<◌, ◌≤◌, ◌≡◌, ◌≢◌, refl, sym, ◌∙◌, ap, arith, inl, inr, Bool, true,
  false, ◌&&◌, Option, none, some, Bool-cases,
}
use where_token.Base.Int.{ℤ, pos, pos_part, ◌+ℤ◌, ◌<ℤ◌}
use where_token.Base.Text.{text_eq}
use where_token.Profile.Snapshot.{token_value, is_known}
use where_token.Profile.Labels.{Action}
use where_token.Profile.Calendar.{
  Time, remaining, hour, day_length, wall, of_minutes, format_date, date_of,
}
use where_token.Profile.Publish.{
  PublicationInput, explains, decide_publication, decide_total, decide_known, decide_growth, growth,
  same_day, rollover, drop_from, coverage_lost, owner_now, wall_midnight, valid_local_date,
  earlier_local_date,
}

-- The candidate may reach GitHub now or at midnight.
abbrev pub is_publication : Action → Bool
is_publication Action.publish_now = true
is_publication Action.wait_until = true
is_publication _ = false

-- A candidate total that is lower than the proven total of the wall, and that the permit does not
-- explain, is blocked.
pub decide_publication_blocked :
    (i : PublicationInput) (total wall_total : ℤ)
    → i.verified.proven ≡ true
    → i.verified.total ≡ some wall_total
    → token_value i.candidate ≡ some total
    → total <ℤ wall_total
    → explains i.correction wall_total total ≡ false
    → (decide_publication i).action ≡ Action.blocked
unfolding decide_publication decide_total decide_known
decide_publication_blocked i total wall_total p w t lt e =
    let dropped : drop_from i total i.verified.total false ≡ true = rw w ground (arith, p, e, lt) in
    ground (arith, t, dropped)

-- What holds of a candidate that passed the guards of the gate, with its total.
pub record IsPassed (i : PublicationInput) (total : ℤ) : Type 0 where
  pub covered : coverage_lost i.accepted i.candidate ≡ false
  pub not_dropped : drop_from i total i.verified.total false ≡ false
  pub not_earlier :
      i.verified.proven
        && valid_local_date i.verified.as_of_date
        && valid_local_date i.candidate.as_of_date
        && earlier_local_date i.candidate.as_of_date i.verified.as_of_date
      ≡ false

-- A candidate that the gate lets through: it has a total, and it passed the guards.
pub record IsSafe (i : PublicationInput) : Type 0 where
  pub online : i.offline ≡ false
  pub known : is_known i.candidate.data_status ≡ true
  pub total : ℤ
  pub counted : token_value i.candidate ≡ some total
  pub passed : IsPassed i total

decide_known-covered :
    (i : PublicationInput) (total : ℤ)
    → is_publication (decide_known i total).action ≡ true
    → coverage_lost i.accepted i.candidate ≡ false
unfolding decide_known
decide_known-covered i total h = ground arith

decide_known-not_dropped :
    (i : PublicationInput) (total : ℤ)
    → is_publication (decide_known i total).action ≡ true
    → drop_from i total i.verified.total false ≡ false
unfolding decide_known
decide_known-not_dropped i total h = ground arith

decide_known-not_earlier :
    (i : PublicationInput) (total : ℤ)
    → is_publication (decide_known i total).action ≡ true
    → i.verified.proven
        && valid_local_date i.verified.as_of_date
        && valid_local_date i.candidate.as_of_date
        && earlier_local_date i.candidate.as_of_date i.verified.as_of_date
      ≡ false
unfolding decide_known
decide_known-not_earlier i total h = ground arith

decide_known-IsPassed :
    (i : PublicationInput) (total : ℤ)
    → is_publication (decide_known i total).action ≡ true
    → IsPassed i total
decide_known-IsPassed i total h = record {
  covered = decide_known-covered i total h;
  not_dropped = decide_known-not_dropped i total h;
  not_earlier = decide_known-not_earlier i total h;
}

decide_total-IsSafe :
    (i : PublicationInput)
    → i.offline ≡ false
    → (total : Option ℤ) → token_value i.candidate ≡ total
    → is_publication (decide_total i total).action ≡ true
    → IsSafe i
unfolding decide_total
decide_total-IsSafe i on none t h = cc
decide_total-IsSafe i on (some total) t h = elim (Bool-cases (is_known i.candidate.data_status)) [
  | inl k ↦ record {
    online = on;
    known = k;
    total = total;
    counted = t;
    passed = decide_known-IsPassed i total (ground arith);
  }
  | inr k ↦ ground arith
]

-- The gate lets a candidate through only while online, with a total and a known status, where it may
-- replace the accepted snapshot, has no drop from the wall that the permit does not explain, and is
-- of no earlier date than the wall.
pub decide_publication-IsSafe :
    (i : PublicationInput) → is_publication (decide_publication i).action ≡ true → IsSafe i
unfolding decide_publication
decide_publication-IsSafe i h =
    let on : i.offline ≡ false = ground arith in
    decide_total-IsSafe i on (token_value i.candidate) refl (ground arith)

same_day_wait :
    (i : PublicationInput) (total : ℤ) (wall_total : Option ℤ)
    → (same_day i total wall_total).action ≡ Action.wait_until
    → same_day i total wall_total ≡ growth i
unfolding same_day
same_day_wait i total none h = cc
same_day_wait i total (some w) h = ground arith

rollover_at_once : (total : Option ℤ) → (rollover total).action ≢ Action.wait_until
unfolding rollover
rollover_at_once none h = cc
rollover_at_once (some _) h = cc

decide_growth_wait :
    (i : PublicationInput) (total : ℤ)
    → (decide_growth i total).action ≡ Action.wait_until
    → decide_growth i total ≡ growth i
unfolding decide_growth
decide_growth_wait i total h =
    ground (arith, same_day_wait i total i.verified.total, rollover_at_once i.verified.total)

decide_known_wait :
    (i : PublicationInput) (total : ℤ)
    → (decide_known i total).action ≡ Action.wait_until
    → decide_known i total ≡ growth i
unfolding decide_known
decide_known_wait i total h = ground (arith, decide_growth_wait i total)

decide_total_wait :
    (i : PublicationInput) (total : Option ℤ)
    → (decide_total i total).action ≡ Action.wait_until
    → decide_total i total ≡ growth i
unfolding decide_total
decide_total_wait i none h = cc
decide_total_wait i (some total) h = ground (arith, decide_known_wait i total)

decide_publication-growth :
    (i : PublicationInput)
    → (decide_publication i).action ≡ Action.wait_until
    → decide_publication i ≡ growth i
unfolding decide_publication
decide_publication-growth i h = ground (arith, decide_total_wait i (token_value i.candidate))

growth_wait :
    (i : PublicationInput)
    → (growth i).action ≡ Action.wait_until
    → ((growth i).due_at ≡ some (wall_midnight (owner_now i)))
      × (remaining (owner_now i) ≤ 4 * hour)
      × (text_eq i.candidate.as_of_date (format_date (date_of (owner_now i))) ≡ true)
unfolding growth
growth_wait i h = (ground arith, ground arith, ground arith)

-- The instant is after the time; in the zone of the time it is a midnight, and of the next day.
abbrev pub IsNextMidnight : Time → ℕ → Type 0
IsNextMidnight t due =
    let at = wall (record { instant = due; zone = t.zone }) in
    (t.instant < due) × (at % day_length ≡ 0) × (at / day_length ≡ suc (wall t / day_length))

of_minutes_sum :
    (n m : ℕ) (z : ℤ)
    → 0 < pos_part (pos n +ℤ z)
    → pos_part (pos (n + m) +ℤ z) ≡ pos_part (pos n +ℤ z) + m
unfolding ◌+ℤ◌
of_minutes_sum n m z h = ground arith

wall_midnight-IsNextMidnight :
    (t : Time) → remaining t ≤ 4 * hour → IsNextMidnight t (wall_midnight t)
unfolding wall wall_midnight
wall_midnight-IsNextMidnight t near =
    let later : wall (record { instant = t.instant + remaining t; zone = t.zone })
        ≡ wall t + remaining t =
      of_minutes_sum t.instant (remaining t) (of_minutes t.zone) (omega (arith, near)) in
    (omega (arith, near), omega (arith, later), omega (arith, later))

-- A publication that waits does so until the owner's next midnight, which is at most four hours
-- away, and its candidate is of the owner's present date.
pub decide_publication_wait :
    (i : PublicationInput)
    → (decide_publication i).action ≡ Action.wait_until
    → (due : ℕ) × ((decide_publication i).due_at ≡ some due)
      × IsNextMidnight (owner_now i) due
      × (due ≤ (owner_now i).instant + 4 * hour)
      × (text_eq i.candidate.as_of_date (format_date (date_of (owner_now i))) ≡ true)
unfolding wall_midnight
decide_publication_wait i h =
    let e = decide_publication-growth i h in
    let (due, near, today) = growth_wait i (ap (λ d. d.action) (sym e) ∙ h) in
    (
      wall_midnight (owner_now i),
      ap (λ d. d.due_at) e ∙ due,
      wall_midnight-IsNextMidnight (owner_now i) near,
      omega (arith, near),
      today,
    )
