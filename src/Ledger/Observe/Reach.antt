-- ===== src/Ledger/Observe/Reach.antt =====
-- The observations that the operations can reach from an empty database.
use where_token.Base.{
  ◌≡◌, refl, Bool, true, false, some, List, [], ◌∷◌, ◌++◌, arith, if◌then◌else◌, Bool-cases, inl,
  inr, All, any_of, any_of-append, ℕ, sym,
}
use where_token.Base.Int.{ℤ}
use where_token.Base.Text.{Text, text_eq_iff}
use where_token.Base.Dict.{Dict}
use where_token.Event.{Time, UsageEvent}
use where_token.Ledger.Observe.{
  note_covered_window, save_observation, note_source, note_sources, note_api, by_source_from,
}
use where_token.Ledger.Observe.Tables.{
  DayComp, Observation, ObservationMeta, DayRow, Observations, WindowAudit, is_under, has_row,
  day_rows, insert_observation, no_observations,
}
use where_token.Ledger.Observe.Audit.{note_window_audit}
use where_token.Ledger.Observe.Window.{IsOwned, counting}
use where_token.Ledger.Observe.Note.{save_observation-ok, note_covered_window-ok}

module _ (sha256_hex : Text → Text) where
  -- one accepted operation on the tables
  pub data Step : Observations → Observations → Type 0 where
    saves :
        (source origin coverage : Text) (t : Time) (events : List UsageEvent) {o o' : Observations}
        → save_observation sha256_hex source origin coverage t events o ≡ some o'
        → Step o o'
    covers :
        (now : Time) (source from to : Text) (events : List UsageEvent) {o o' : Observations}
        → note_covered_window sha256_hex now source from to events o ≡ some o'
        → Step o o'
    notes :
        (now : Time) (events : List UsageEvent) {o : Observations}
        → Step o (note_api sha256_hex now events o)
    audits :
        (now : Time) (source : Text) (a : WindowAudit) {o o' : Observations}
        → note_window_audit now source a o ≡ some o'
        → Step o o'

  pub data Reachable : Observations → Type 0 where
    start : Reachable no_observations
    next : {o o' : Observations} → Reachable o → Step o o' → Reachable o'

abbrev Owned : List Observation → List DayRow → Type 0
Owned os = All (λ r. has_row r.source r.payload_hash os ≡ true)

Owned-more :
    (os more : List Observation) (rows : List DayRow) → Owned os rows → Owned (os ++ more) rows
Owned-more os more [] h = tt
Owned-more os more (r ∷ rows) (h, hs) = (
  rw (any_of-append (is_under r.source r.payload_hash) os more, h) refl,
  Owned-more os more rows hs,
)

Owned-new :
    (source hash : Text) (os : List Observation) (days : List DayComp)
    → has_row source hash os ≡ true
    → Owned os (day_rows source hash days)
Owned-new source hash os [] h = tt
Owned-new source hash os (d ∷ ds) h = (h, Owned-new source hash os ds h)

Owned-append :
    (os : List Observation) (rs qs : List DayRow) → Owned os rs → Owned os qs → Owned os (rs ++ qs)
Owned-append os [] qs h k = k
Owned-append os (r ∷ rs) qs (h, hs) k = (h, Owned-append os rs qs hs k)

insertion-has_row :
    (source hash : Text) (os : List Observation) (ob : Observation)
    → ob.source ≡ source
    → ob.payload_hash ≡ hash
    → has_row source hash (os ++ (ob ∷ [])) ≡ true
unfolding any_of is_under
insertion-has_row source hash os ob e f =
    rw (any_of-append (is_under source hash) os (ob ∷ []))
      (ground (arith, text_eq_iff ob.source source, text_eq_iff ob.payload_hash hash))

insert_observation-IsOwned :
    (source hash : Text) (tokens : ℤ) (n : ℕ) (version : ℤ) (meta : ObservationMeta)
    (days : List DayComp) (o : Observations)
    → IsOwned o
    → IsOwned (insert_observation source hash tokens n version meta days o)
unfolding insert_observation
insert_observation-IsOwned source hash tokens n version meta days o h =
    elim (Bool-cases (has_row source hash o.observations)) [
      | inl old ↦ rw (old, if◌then◌else◌) h
      | inr new ↦
          rw (new, if◌then◌else◌)
            (Owned-append _ o.days _ (Owned-more o.observations _ o.days h) (
              Owned-new source hash _ (counting days)
                (insertion-has_row source hash o.observations _ refl refl)))
    ]

either-IsOwned :
    (b : Bool) (o p : Observations) → IsOwned o → IsOwned p → IsOwned (if b then o else p)
either-IsOwned true o p h k = h
either-IsOwned false o p h k = k

pub note_window_audit-same :
    (now : Time) (source : Text) (a : WindowAudit) (o o' : Observations)
    → note_window_audit now source a o ≡ some o'
    → (o'.observations ≡ o.observations) × (o'.days ≡ o.days)
unfolding note_window_audit
note_window_audit-same now source a o o' e = ground arith

module _ (sha256_hex : Text → Text) where
  note_sources-IsOwned :
      (now : Time) (by : Dict (List UsageEvent)) (o : Observations)
      → IsOwned o
      → IsOwned (note_sources sha256_hex now by o)
  unfolding note_sources
  note_sources-IsOwned now [] o h = h
  note_sources-IsOwned now ((source, events) ∷ by) o h =
      note_sources-IsOwned now by (note_source sha256_hex now events source o)
        (insert_observation-IsOwned source _ _ _ _ _ _ o h)

  Step-IsOwned : {o o' : Observations} → Step sha256_hex o o' → IsOwned o → IsOwned o'
  unfolding note_api
  Step-IsOwned (saves source origin coverage t events {o} {o'} e) h =
      rw (save_observation-ok sha256_hex source origin coverage t events o o' e)
        (either-IsOwned _ o _ h (insert_observation-IsOwned source _ _ _ _ _ _ o h))
  Step-IsOwned (covers now source from to events {o} {o'} e) h =
      rw (sym (note_covered_window-ok sha256_hex now source from to events o o' e).3)
        (insert_observation-IsOwned source _ _ _ _ _ _ o h)
  Step-IsOwned (notes now events {o}) h = note_sources-IsOwned now (by_source_from [] events) o h
  Step-IsOwned (audits now source a {o} {o'} e) h =
      let (os, days) = note_window_audit-same now source a o o' e in rw (os, days) h

  -- In every state that the operations reach from an empty database, each stored day belongs to a
  -- stored observation of its source.
  pub Reachable-IsOwned : {o : Observations} → Reachable sha256_hex o → IsOwned o
  Reachable-IsOwned start = tt
  Reachable-IsOwned (next reached step) = Step-IsOwned step (Reachable-IsOwned reached)
