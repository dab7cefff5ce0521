-- ===== src/Profile/Keep/Laws.antt =====
-- What keeps a public snapshot (internal/publicprofile/keep.go).
use where_token.Base.{
  ◌≡◌, refl, arith, Bool, true, false, some, List, [], ◌∷◌, All, ℕ, get_elem?, All-get_elem?,
}
use where_token.Base.Text.{is_empty}
use where_token.Base.Dict.{Dict, get}
use where_token.Profile.Snapshot.{Breakdown, Snapshot}
use where_token.Profile.Keep.{
  measured_agent, measured_in, agents_of, lost_among, lost_measured_provider,
  should_replace_projection, measured_set_held, held_among,
}

-- a measured agent that `next` has measured too
abbrev pub IsHeld : Dict Breakdown → Breakdown → Type 0
IsHeld next row = measured_agent row ≡ true → measured_in (get row.id next) ≡ true

lost_among-IsHeld :
    (next : Dict Breakdown) (rows : List Breakdown)
    → lost_among next rows ≡ false
    → All (IsHeld next) rows
unfolding lost_among
lost_among-IsHeld next [] h = tt
lost_among-IsHeld next (row ∷ rows) h =
    ((λ m. ground arith), lost_among-IsHeld next rows (ground arith))

held_among-not_lost :
    (next : Dict Breakdown) (rows : List Breakdown) (saw : Bool)
    → held_among next rows saw ≡ true
    → lost_among next rows ≡ false
unfolding held_among lost_among
held_among-not_lost next [] saw h = refl
held_among-not_lost next (row ∷ rows) saw h =
    ground (arith, held_among-not_lost next rows saw, held_among-not_lost next rows true)

-- A snapshot that may replace a public one has a measured row for every agent that was measured.
pub should_replace_projection-held :
    (prev next : Snapshot) (n : ℕ) (row : Breakdown)
    → is_empty prev.snapshot_id ≡ false
    → should_replace_projection prev next ≡ true
    → get_elem? prev.by_agent n ≡ some row
    → measured_agent row ≡ true
    → measured_in (get row.id (agents_of next)) ≡ true
unfolding should_replace_projection lost_measured_provider
should_replace_projection-held prev next n row id h at =
    All-get_elem? (IsHeld (agents_of next)) prev.by_agent n row
      (lost_among-IsHeld (agents_of next) prev.by_agent (ground arith)) at

-- A snapshot whose measured agents are held replaces the public one even where its data status is weaker.
pub should_replace_projection_of_held :
    (prev next : Snapshot)
    → measured_set_held prev next ≡ true
    → should_replace_projection prev next ≡ true
unfolding should_replace_projection lost_measured_provider measured_set_held
should_replace_projection_of_held prev next h =
    ground (arith, held_among-not_lost (agents_of next) prev.by_agent false h)
