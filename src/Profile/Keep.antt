-- ===== src/Profile/Keep.antt =====
-- internal/publicprofile/keep.go: a snapshot that lost a measured agent keeps the public one.
pub mod Laws
use where_token.Base.{
  ℕ, Bool, true, false, not, ◌&&◌, ◌||◌, Option, none, some, List, [], ◌∷◌, ◌++◌, if◌then◌else◌,
  ltb, leb,
}
use where_token.Base.Int.{ℤ, pos, ltb_ℤ, leb_ℤ}
use where_token.Base.Text.{Text, bytes, text_eq, is_empty}
use where_token.Base.Dict.{Dict, get, put}
use where_token.Base.Order.{sort_texts}
use where_token.Profile.Snapshot.{
  Status, Reason, TokenSource, DateRange, Coverage, Breakdown, Snapshot, is_unavailable,
}

unfoldable pub coverage_rank : Status → ℕ
coverage_rank Status.available = 3
coverage_rank Status.partial = 2
coverage_rank _ = 1

-- the reasons that leave an agent unmeasured
abbrev pub is_failure : Reason → Bool
is_failure (Reason.other _) = false
is_failure _ = true

abbrev pub is_positive : Option ℤ → Bool
is_positive none = false
is_positive (some n) = ltb_ℤ (pos 0) n

unfoldable pub measured_agent : Breakdown → Bool
measured_agent row =
    if is_unavailable row.total_status || is_unavailable row.coverage.tokens
    then false
    else if is_failure row.coverage.reason
    then false
    else is_positive row.total

-- `nextAgents`: a later row of the same id takes the place of an earlier one
unfoldable pub agents_from : Dict Breakdown → List Breakdown → Dict Breakdown
agents_from m [] = m
agents_from m (row ∷ rows) = agents_from (put row.id row m) rows

abbrev pub agents_of : Snapshot → Dict Breakdown
agents_of s = agents_from [] s.by_agent

-- `ok && measuredAgent(nxt)`
abbrev pub measured_in : Option Breakdown → Bool
measured_in none = false
measured_in (some row) = measured_agent row

unfoldable pub lost_among : Dict Breakdown → List Breakdown → Bool
lost_among next [] = false
lost_among next (row ∷ rows) =
    let rest = lost_among next rows in
    if measured_agent row then (if measured_in (get row.id next) then rest else true) else rest

unfoldable pub lost_measured_provider : Snapshot → Snapshot → Bool
lost_measured_provider prev next = lost_among (agents_of next) prev.by_agent

abbrev pub no_reason : Reason → Bool
no_reason (Reason.other s) = is_empty s
no_reason _ = false

abbrev pub is_account_api : TokenSource → Bool
is_account_api TokenSource.account_api = true
is_account_api (TokenSource.other _) = false

abbrev pub is_partial : Status → Bool
is_partial Status.partial = true
is_partial _ = false

abbrev pub is_account_window : Option DateRange → Bool
is_account_window none = false
is_account_window (some win) = text_eq win.label (bytes "account usage") && not (is_empty win.to)

-- both totals are present and the later is not lower
abbrev pub total_held : Option ℤ → Option ℤ → Bool
total_held (some p) (some n) = leb_ℤ p n
total_held _ _ = false

unfoldable pub held_account_observation : Breakdown → Breakdown → Bool
held_account_observation prev next =
    if not (is_account_api next.coverage.token_source) || not (no_reason next.coverage.reason)
    then false
    else if not (is_partial next.coverage.tokens)
    then false
    else if not (is_account_window next.coverage.token_window)
    then false
    else total_held prev.total next.total

-- one status of the row got weaker
abbrev pub is_weaker : Breakdown → Breakdown → Bool
is_weaker prev next =
    ltb (coverage_rank next.coverage.tokens) (coverage_rank prev.coverage.tokens)
    || ltb (coverage_rank next.total_status) (coverage_rank prev.total_status)

-- the row of `next` for a measured row of `prev` lets the loop go on
abbrev pub row_held : Breakdown → Option Breakdown → Bool
row_held row none = false
row_held row (some nxt) =
    if not (measured_agent nxt)
    then false
    else if is_weaker row nxt
    then held_account_observation row nxt
    else true

-- the loop of `measuredSetHeld` from a value of `saw`
unfoldable pub held_among : Dict Breakdown → List Breakdown → Bool → Bool
held_among next [] saw = saw
held_among next (row ∷ rows) saw =
    let skip = held_among next rows saw in
    let rest = held_among next rows true in
    if not (measured_agent row)
    then skip
    else if row_held row (get row.id next)
    then rest
    else false

unfoldable pub measured_set_held : Snapshot → Snapshot → Bool
measured_set_held prev next = held_among (agents_of next) prev.by_agent false

unfoldable pub should_replace_projection : Snapshot → Snapshot → Bool
should_replace_projection prev next =
    if is_empty prev.snapshot_id
    then true
    else if lost_measured_provider prev next
    then false
    else if ltb (coverage_rank next.data_status) (coverage_rank prev.data_status)
        && not (measured_set_held prev next)
    then false
    else true

abbrev pub is_id_byte : ℕ → Bool
is_id_byte c = (leb b'a' c && leb c b'z') || (leb b'0' c && leb c b'9')

abbrev pub all_id_bytes : Text → Bool
all_id_bytes [] = true
all_id_bytes (c ∷ s) = is_id_byte c && all_id_bytes s

-- the test by bytes agrees with the one by runes, since a rune past ASCII has no byte below 0x80
unfoldable pub safe_agent_id : Text → Bool
safe_agent_id id = not (is_empty id) && all_id_bytes id

unfoldable pub lost_ids : Dict Breakdown → List Breakdown → List Text
lost_ids next [] = []
lost_ids next (row ∷ rows) =
    let rest = lost_ids next rows in
    if not (measured_agent row) || not (safe_agent_id row.id)
    then rest
    else if measured_in (get row.id next)
    then rest
    else row.id ∷ rest

unfoldable pub join_comma : List Text → Text
join_comma [] = []
join_comma (s ∷ []) = s
join_comma (s ∷ t ∷ ts) = s ++ (b',' ∷ join_comma (t ∷ ts))

unfoldable pub lost_provider_ids : Snapshot → Snapshot → Text
lost_provider_ids prev next = join_comma (sort_texts (lost_ids (agents_of next) prev.by_agent))
