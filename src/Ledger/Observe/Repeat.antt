-- ===== src/Ledger/Observe/Repeat.antt =====
-- A finished window that is noted a second time.
use where_token.Base.{
  ◌≡◌, refl, sym, ◌∙◌, ap, true, false, some, List, arith, if◌then◌else◌, Bool, Bool-cases, inl,
  inr, any_of-append, [], ◌∷◌, ℕ,
}
use where_token.Base.Int.{ℤ}
use where_token.Base.Text.{Text}
use where_token.Base.Dict.{Dict}
use where_token.Event.{Time, UsageEvent}
use where_token.Ledger.Observe.{
  note_covered_window, note_source, note_sources, note_api, by_source_from, window_hash,
}
use where_token.Ledger.Observe.Tables.{
  DayComp, ObservationMeta, Observations, is_under, has_row, insert_observation,
}
use where_token.Ledger.Observe.Reach.{Step, saves, covers, notes, audits, note_window_audit-same}
use where_token.Ledger.Observe.Note.{
  kept_days, noted, note_covered_window-ok, save_observation-ok, insert_observation-has_row,
  insert_observation_old,
}

-- An observation that is stored stays stored.
has_row-insert_observation :
    (s h source hash : Text) (tokens : ℤ) (n : ℕ) (version : ℤ) (meta : ObservationMeta)
    (days : List DayComp) (o : Observations)
    → has_row s h o.observations ≡ true
    → has_row s h (insert_observation source hash tokens n version meta days o).observations ≡ true
unfolding insert_observation
has_row-insert_observation s h source hash tokens n version meta days o there =
    elim (Bool-cases (has_row source hash o.observations)) [
      | inl old ↦ rw (old, if◌then◌else◌) there
      | inr new ↦ rw (new, if◌then◌else◌, any_of-append (is_under s h) o.observations, there) refl
    ]

either-has_row :
    (s h : Text) (b : Bool) (o p : Observations)
    → has_row s h o.observations ≡ true
    → has_row s h p.observations ≡ true
    → has_row s h (if b then o else p).observations ≡ true
either-has_row s h true o p k l = k
either-has_row s h false o p k l = l

module _ (sha256_hex : Text → Text) where
  -- accepted operations, one after the other
  pub data Steps : Observations → Observations → Type 0 where
    done : {o : Observations} → Steps o o
    more : {o p q : Observations} → Step sha256_hex o p → Steps p q → Steps o q

  has_row-note_sources :
      (s h : Text) (now : Time) (by : Dict (List UsageEvent)) (o : Observations)
      → has_row s h o.observations ≡ true
      → has_row s h (note_sources sha256_hex now by o).observations ≡ true
  unfolding note_sources
  has_row-note_sources s h now [] o there = there
  has_row-note_sources s h now ((source, events) ∷ by) o there =
      has_row-note_sources s h now by (note_source sha256_hex now events source o)
        (has_row-insert_observation s h source _ _ _ _ _ _ o there)

  has_row-Step :
      (s h : Text) {o o' : Observations}
      → Step sha256_hex o o'
      → has_row s h o.observations ≡ true
      → has_row s h o'.observations ≡ true
  unfolding note_api
  has_row-Step s h (saves source origin coverage t events {o} {o'} e) there =
      rw (save_observation-ok sha256_hex source origin coverage t events o o' e)
        (either-has_row s h _ o _ there (has_row-insert_observation s h source _ _ _ _ _ _ o there))
  has_row-Step s h (covers now source from to events {o} {o'} e) there =
      rw (sym (note_covered_window-ok sha256_hex now source from to events o o' e).3)
        (has_row-insert_observation s h source _ _ _ _ _ _ o there)
  has_row-Step s h (notes now events {o}) there =
      has_row-note_sources s h now (by_source_from [] events) o there
  has_row-Step s h (audits now source a {o} {o'} e) there =
      let (os, days) = note_window_audit-same now source a o o' e in rw os there

  has_row-Steps :
      (s h : Text) {o o' : Observations}
      → Steps o o'
      → has_row s h o.observations ≡ true
      → has_row s h o'.observations ≡ true
  has_row-Steps s h done there = there
  has_row-Steps s h (more step steps) there = has_row-Steps s h steps (has_row-Step s h step there)

  has_row-note_covered_window :
      (now : Time) (source from to : Text) (events : List UsageEvent) (o o' : Observations)
      → note_covered_window sha256_hex now source from to events o ≡ some o'
      → has_row source (window_hash sha256_hex from to (kept_days from to events)) o'.observations
        ≡ true
  has_row-note_covered_window now source from to events o o' accepted =
      rw (sym (note_covered_window-ok sha256_hex now source from to events o o' accepted).3)
        (insert_observation-has_row source _ _ _ _ _ (kept_days from to events) o)

  -- the guards of NoteCoveredWindow read the source and the window only
  note_covered_window-noted :
      (now now' : Time) (source from to : Text) (events events' : List UsageEvent)
      (o o' p : Observations)
      → note_covered_window sha256_hex now source from to events o ≡ some o'
      → note_covered_window sha256_hex now' source from to events' p
        ≡ some (noted sha256_hex now' source from to events' p)
  unfolding note_covered_window
  note_covered_window-noted now now' source from to events events' o o' p accepted = ground arith

  -- Where a finished window was accepted, and after any further operations on the observations the
  -- same window is noted again, at any time and with events that have the same days in the window,
  -- the call succeeds and changes nothing, whatever other contents of the window came in between.
  pub note_covered_window_again :
      (now now' : Time) (source from to : Text) (events events' : List UsageEvent)
      (o o' p : Observations)
      → note_covered_window sha256_hex now source from to events o ≡ some o'
      → Steps o' p
      → kept_days from to events' ≡ kept_days from to events
      → note_covered_window sha256_hex now' source from to events' p ≡ some p
  note_covered_window_again now now' source from to events events' o o' p first steps same =
      let hash = window_hash sha256_hex from to (kept_days from to events') in
      let stored = has_row-note_covered_window now source from to events o o' first in
      let old : has_row source hash p.observations ≡ true =
        has_row-Steps source hash steps (rw same stored) in
      note_covered_window-noted now now' source from to events events' o o' p first
      ∙ ap some (insert_observation_old source hash _ _ _ _ (kept_days from to events') p old)
