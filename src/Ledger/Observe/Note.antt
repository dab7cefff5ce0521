-- ===== src/Ledger/Observe/Note.antt =====
-- The operations that store an observation, and what is read back after them.
use where_token.Base.{
  select, ◌≡◌, refl, sym, true, false, ◌||◌, none, some, List, [], ◌∷◌, ◌++◌, arith, if◌then◌else◌,
  ◌∙◌, Bool-cases, inl, inr, ap, map, length, any_of, any_of-append, ℕ,
}
use where_token.Base.Int.{ℤ, pos, leb_ℤ}
use where_token.Base.Text.{Text, bytes, text_eq_iff, is_empty}
use where_token.Base.Order.{text_ltb, sort_by}
use where_token.Event.{Time, UsageEvent}
use where_token.Event.Clock.{rfc3339_nano, utc_day}
use where_token.Profile.Calendar.{format_date}
use where_token.Ledger.Observe.{
  group_days, is_kept, note_covered_window, window_hash, save_observation, sum_days, is_none_of,
  lines_text, day_line, meta_of,
}
use where_token.Ledger.Observe.Tables.{
  DayComp, ObservationMeta, Observations, is_under, has_row, insert_observation,
}
use where_token.Ledger.Store.{parser_version}
use where_token.Ledger.Observe.Chain.{StoredObservation, within, observations_asc, is_window}
use where_token.Ledger.Observe.Chain.Laws.{
  last_row, or_before, speaks, get-chain_day_map, get-chain_day_map_last,
}
use where_token.Ledger.Observe.Chain.Events.{latest_row}
use where_token.Ledger.Observe.Save.{
  day_total, counted, last_row-group_days, last_row-kept, last_row-sort_by,
}
use where_token.Ledger.Observe.Window.{IsOwned, IsLatest, counting, observations_asc-insert}

last_row-counting : (day : Text) (ds : List DayComp) → last_row day (counting ds) ≡ last_row day ds
unfolding select last_row
last_row-counting day [] = refl
last_row-counting day (d ∷ ds) = ground (arith, last_row-counting day ds)

-- What a finished window says of a day: the sums of its events inside, nothing outside.
speaks-window :
    (day hash from to : Text) (events : List UsageEvent)
    → is_empty from ≡ false
    → is_empty to ≡ false
    → text_ltb to from ≡ false
    → speaks day (record {
      hash = hash;
      from = from;
      to = to;
      days = sort_by (λ d. d.day) (counting (select (is_kept from to) (group_days events)));
    })
      ≡ (if within from to day then some (counted (day_total day events)) else none)
unfolding speaks is_window
speaks-window day hash from to events f t le =
    let kept = select (is_kept from to) (group_days events) in
    ground (
      arith,
      f,
      t,
      le,
      last_row-sort_by day (counting kept),
      last_row-counting day kept,
      last_row-kept day from to (group_days events),
      last_row-group_days day events,
    )

stamp_not_empty : (now : Time) → is_empty (rfc3339_nano now) ≡ false
unfolding rfc3339_nano utc_day format_date
stamp_not_empty now = refl

-- the latest row of a day after an insertion that `observations_asc-insert` describes
latest_row-insert :
    (source day hash : Text) (tokens : ℤ) (n : ℕ) (version : ℤ) (meta : ObservationMeta)
    (days : List DayComp) (o : Observations)
    → IsOwned o
    → IsLatest meta.observed_at o
    → is_empty meta.observed_at ≡ false
    → has_row source hash o.observations ≡ false
    → latest_row source day (insert_observation source hash tokens n version meta days o)
      ≡ or_before
          (speaks day (record {
            hash = hash;
            from = meta.window_from;
            to = meta.window_to;
            days = sort_by (λ d. d.day) (counting days);
          }))
          (latest_row source day o)
latest_row-insert source day hash tokens n version meta days o owned latest dated new =
    let obs = observations_asc source [] o in
    let ob : StoredObservation = record {
      hash = hash;
      from = meta.window_from;
      to = meta.window_to;
      days = sort_by (λ d. d.day) (counting days);
    } in
    rw (observations_asc-insert source hash tokens n version meta days o owned latest dated new) (
      sym (get-chain_day_map day (obs ++ (ob ∷ [])))
      ∙ get-chain_day_map_last day obs ob
      ∙ ap (or_before (speaks day ob)) (get-chain_day_map day obs))

pub insert_observation-has_row :
    (source hash : Text) (tokens : ℤ) (n : ℕ) (version : ℤ) (meta : ObservationMeta)
    (days : List DayComp) (o : Observations)
    → has_row source hash (insert_observation source hash tokens n version meta days o).observations
      ≡ true
unfolding insert_observation any_of is_under
insert_observation-has_row source hash tokens n version meta days o =
    elim (Bool-cases (has_row source hash o.observations)) [
      | inl old ↦ rw (old, if◌then◌else◌) old
      | inr new ↦
          rw (new, if◌then◌else◌, any_of-append (is_under source hash) o.observations)
            (ground (arith, text_eq_iff source source, text_eq_iff hash hash))
    ]

pub insert_observation_old :
    (source hash : Text) (tokens : ℤ) (n : ℕ) (version : ℤ) (meta : ObservationMeta)
    (days : List DayComp) (o : Observations)
    → has_row source hash o.observations ≡ true
    → insert_observation source hash tokens n version meta days o ≡ o
unfolding insert_observation
insert_observation_old source hash tokens n version meta days o old = rw (old, if◌then◌else◌) refl

abbrev pub kept_days : Text → Text → List UsageEvent → List DayComp
kept_days from to events = select (is_kept from to) (group_days events)

module _ (sha256_hex : Text → Text) where
  -- what an accepted window stores
  abbrev pub noted : Time → Text → Text → Text → List UsageEvent → Observations → Observations
  noted now source from to events o =
      let kept = kept_days from to events in
      insert_observation source (window_hash sha256_hex from to kept) (sum_days (pos 0) kept)
        (length kept) parser_version
        (record {
          observed_at = rfc3339_nano now;
          window_from = from;
          window_to = to;
          coverage = bytes "window";
          origin = bytes "api";
        })
        kept o

  pub note_covered_window-ok :
      (now : Time) (source from to : Text) (events : List UsageEvent) (o o' : Observations)
      → note_covered_window sha256_hex now source from to events o ≡ some o'
      → (is_empty from ≡ false)
        × (is_empty to ≡ false)
        × (text_ltb to from ≡ false)
        × (noted now source from to events o ≡ o')
  unfolding note_covered_window
  note_covered_window-ok now source from to events o o' accepted = ground arith

  -- An accepted finished window of a payload not yet stored for the source, noted at a time whose
  -- stamp no stored one passes, replaces exactly its own days: a day inside reads back as the sums
  -- of its events, none where they are zero, and a day outside reads back as before. Every stored
  -- day must belong to a stored observation.
  pub note_covered_window-latest :
      (now : Time) (source from to day : Text) (events : List UsageEvent) (o o' : Observations)
      → IsOwned o
      → IsLatest (rfc3339_nano now) o
      → has_row source (window_hash sha256_hex from to (kept_days from to events)) o.observations
        ≡ false
      → note_covered_window sha256_hex now source from to events o ≡ some o'
      → latest_row source day o'
        ≡ (if within from to day then counted (day_total day events) else latest_row source day o)
  note_covered_window-latest now source from to day events o o' owned latest new accepted =
      let (f, t, le, stored) = note_covered_window-ok now source from to events o o' accepted in
      let kept = kept_days from to events in
      let hash = window_hash sha256_hex from to kept in
      rw (sym stored) (
        latest_row-insert source day hash _ _ _ _ kept o owned latest (stamp_not_empty now) new
        ∙ ground (arith, speaks-window day hash from to events f t le))

  -- what an accepted observation stores, where it counts tokens
  abbrev pub saved : Text → Text → Text → Time → List DayComp → Observations → Observations
  saved source origin coverage t days o =
      insert_observation source (sha256_hex (lines_text (map day_line days)))
        (sum_days (pos 0) days) (length days) parser_version
        (meta_of (rfc3339_nano t) coverage origin days) days o

  pub save_observation-ok :
      (source origin coverage : Text) (t : Time) (events : List UsageEvent) (o o' : Observations)
      → save_observation sha256_hex source origin coverage t events o ≡ some o'
      → o' ≡ (
          if is_none_of (group_days events) || leb_ℤ (sum_days (pos 0) (group_days events)) (pos 0)
          then o
          else saved source origin coverage t (group_days events) o)
  unfolding save_observation
  save_observation-ok source origin coverage t events o o' accepted = ground arith

  -- Of two accepted observations that group to the same days for a source, one after the other, the
  -- second changes nothing, whatever its origin, its coverage and its time.
  pub save_observation_again :
      (source origin origin' coverage coverage' : Text) (t t' : Time)
      (events events' : List UsageEvent) (o o' o'' : Observations)
      → group_days events' ≡ group_days events
      → save_observation sha256_hex source origin coverage t events o ≡ some o'
      → save_observation sha256_hex source origin' coverage' t' events' o' ≡ some o''
      → o'' ≡ o'
  save_observation_again source origin origin' coverage coverage' t t' events events' o o' o'' same
        first second =
      let days = group_days events in
      let hash = sha256_hex (lines_text (map day_line days)) in
      let blank = is_none_of days || leb_ℤ (sum_days (pos 0) days) (pos 0) in
      let e = save_observation-ok source origin coverage t events o o' first in
      let e' = save_observation-ok source origin' coverage' t' events' o' o'' second in
      elim (Bool-cases blank) [
        | inl h ↦ e' ∙ rw (same, h) refl
        | inr h ↦
            e'
            ∙ rw (same, h)
                (insert_observation_old source hash _ _ _ _ days o' (
                  rw (e, h)
                    (insert_observation-has_row source hash (sum_days (pos 0) days) (length days)
                      parser_version (meta_of (rfc3339_nano t) coverage origin days) days o)))
      ]
