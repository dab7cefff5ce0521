-- ===== src/Ledger/Omit/Laws.antt =====
-- What a complete reread leaves out (internal/ledger/ledger.go).
use where_token.Base.{
  map, select, not, ◌≡◌, refl, ap, arith, Bool, true, false, ◌&&◌, ◌||◌, Option, none, some, List,
  [], ◌∷◌, if◌then◌else◌, any_of, Bool-cases, inl, inr, All,
}
use where_token.Base.Text.{Text, text_eq, text_eq_iff}
use where_token.Base.Dict.{member}
use where_token.Event.{UsageEvent}
use where_token.Ledger.Key.{key}
use where_token.Ledger.Fact.{event}
use where_token.Ledger.Store.Tables.{Row, Ledger}
use where_token.Ledger.Omit.{
  is_no_reread, with_key, present_ids, Session, sessions_of, of_session, missing_of, delete_ids,
  insert_ids, omit_sessions, note_complete, seen_ids, api_sources, is_left_out, unseen_rows, unseen,
}

-- the session of a row was read
abbrev pub in_sessions : Row → List Session → Bool
in_sessions r sessions = any_of (of_session r) sessions

-- a stored row has the id, in one of the sessions
abbrev pub stored_in : Text → List Session → List Row → Bool
stored_in id sessions rows = any_of (λ r. text_eq r.fact.id id && in_sessions r sessions) rows

same_member : (j i : Text) (s : List Text) → text_eq j i ≡ true → member j s ≡ member i s
same_member j i s h = ap (λ t. member t s) ((text_eq_iff j i).0 h)

All-map {ℓ κ μ} :
    {A : Type ℓ} (P : A → Type κ) (Q : A → Type μ) (xs : List A)
    → ((x : A) → P x → Q x)
    → All P xs
    → All Q xs
All-map P Q [] f ps = tt
All-map P Q (x ∷ xs) f (p, ps) = (f x p, All-map P Q xs f ps)

delete_ids-member :
    (id : Text) (present omissions : List Text)
    → member id (delete_ids present omissions)
      ≡ (if member id present then false else member id omissions)
unfolding delete_ids member
delete_ids-member id present [] = ground arith
delete_ids-member id present (j ∷ omissions) =
    ground
      (arith, text_eq_iff j id, delete_ids-member id present omissions, same_member j id present)

insert_ids-member :
    (id : Text) (ids omissions : List Text)
    → member id (insert_ids ids omissions) ≡ member id ids || member id omissions
unfolding insert_ids member
insert_ids-member id [] omissions = refl
insert_ids-member id (j ∷ ids) omissions = ground (
  arith,
  text_eq_iff j id,
  insert_ids-member id ids omissions,
  same_member j id (insert_ids ids omissions),
)

missing_of-member :
    (id : Text) (present : List Text) (s : Session) (rows : List Row)
    → member id (missing_of present s rows) ≡ (
        if member id present
        then false
        else any_of (λ r. text_eq r.fact.id id && of_session r s) rows)
unfolding missing_of member any_of
missing_of-member id present s [] = ground arith
missing_of-member id present s (r ∷ rows) = ground (
  arith,
  text_eq_iff r.fact.id id,
  missing_of-member id present s rows,
  same_member r.fact.id id present,
)

stored_in-cons :
    (id : Text) (s : Session) (sessions : List Session) (rows : List Row)
    → stored_in id (s ∷ sessions) rows
      ≡ any_of (λ r. text_eq r.fact.id id && of_session r s) rows || stored_in id sessions rows
unfolding any_of
stored_in-cons id s sessions [] = refl
stored_in-cons id s sessions (r ∷ rows) = ground (arith, stored_in-cons id s sessions rows)

stored_in_nowhere : (id : Text) (rows : List Row) → stored_in id [] rows ≡ false
unfolding any_of
stored_in_nowhere id [] = refl
stored_in_nowhere id (r ∷ rows) = ground (arith, stored_in_nowhere id rows)

omit_sessions-member :
    (id : Text) (present : List Text) (sessions : List Session) (rows : List Row)
    (omissions : List Text)
    → member id (omit_sessions present sessions rows omissions) ≡ (
        if member id present
        then member id omissions
        else member id omissions || stored_in id sessions rows)
unfolding omit_sessions
omit_sessions-member id present [] rows omissions = ground (arith, stored_in_nowhere id rows)
omit_sessions-member id present (s ∷ sessions) rows omissions = ground (
  arith,
  omit_sessions-member id present sessions rows (insert_ids (missing_of present s rows) omissions),
  insert_ids-member id (missing_of present s rows) omissions,
  missing_of-member id present s rows,
  stored_in-cons id s sessions rows,
)

-- After a complete reread, an id is omitted exactly where the reread does not have it and it either
-- was omitted before or is stored under a session that was reread.
pub note_complete-member :
    (events : List UsageEvent) (l : Ledger) (id : Text)
    → member id (note_complete events l).omissions ≡ (
        if member id (present_ids events)
        then false
        else member id l.omissions || stored_in id (sessions_of events) l.rows)
unfolding note_complete
note_complete-member events l id = ground (
  arith,
  omit_sessions-member id (present_ids events) (sessions_of events) l.rows
      (delete_ids (present_ids events) l.omissions),
  delete_ids-member id (present_ids events) l.omissions,
)

with_key-member :
    (id : Text) (k : Option Text) (s t : List Text)
    → (member id s ≡ true → member id t ≡ true)
    → member id (with_key k s) ≡ true
    → member id (with_key k t) ≡ true
unfolding member
with_key-member id none s t h m = h m
with_key-member id (some j) s t h m = ground (arith, h)

with_key-more :
    (id : Text) (k : Option Text) (s : List Text)
    → member id s ≡ true
    → member id (with_key k s) ≡ true
unfolding member
with_key-more id none s m = m
with_key-more id (some j) s m = ground arith

present-seen :
    (id : Text) (events : List UsageEvent)
    → member id (present_ids events) ≡ true
    → member id (seen_ids events) ≡ true
unfolding present_ids seen_ids
present-seen id [] m = m
present-seen id (e ∷ events) m = elim (Bool-cases (is_no_reread e)) [
  | inl no_reread ↦
      with_key-more id (key e) (seen_ids events)
        (present-seen id events (ground (arith, no_reread)))
  | inr reread ↦
      with_key-member id (key e) (present_ids events) (seen_ids events) (present-seen id events)
        (ground (arith, reread))
]

-- a stored row that `Unseen` gives back after a complete reread
abbrev pub is_added : List UsageEvent → Ledger → Row → Bool
is_added events l r =
    not (stored_in r.fact.id (sessions_of events) l.rows)
    && not (member r.fact.id l.omissions)
    && not (member r.fact.id (seen_ids events))
    && not (member r.fact.source (api_sources events))

is_left_out-note_complete :
    (events : List UsageEvent) (l : Ledger) (r : Row)
    → is_left_out (note_complete events l).omissions (api_sources events) (seen_ids events) r
      ≡ not (is_added events l r)
unfolding is_left_out
is_left_out-note_complete events l r =
    ground (arith, note_complete-member events l r.fact.id, present-seen r.fact.id events)

unseen_rows-select :
    (omitted api seen : List Text) (added : Row → Bool) (rows : List Row)
    → ((r : Row) → is_left_out omitted api seen r ≡ not (added r))
    → unseen_rows omitted api seen rows ≡ map (λ r. event r.fact) (select added rows)
unfolding unseen_rows select
unseen_rows-select omitted api seen added [] h = refl
unseen_rows-select omitted api seen added (r ∷ rows) h =
    let rest = unseen_rows-select omitted api seen added rows h in
    elim (Bool-cases (added r)) [
      | inl new ↦ rw (h r, new, if◌then◌else◌, rest) refl
      | inr old ↦ rw (h r, old, if◌then◌else◌) rest
    ]

-- Right after a complete reread, `Unseen` of the same events gives back the stored facts, in their
-- order, of exactly the rows whose id is stored under no reread session, was not omitted before and
-- was not read, and whose source has no account-API or retained event among the events.
pub unseen-note_complete :
    (events : List UsageEvent) (l : Ledger)
    → unseen events (note_complete events l)
      ≡ map (λ r. event r.fact) (select (is_added events l) l.rows)
unfolding unseen note_complete
unseen-note_complete events l =
    let after = note_complete events l in
    unseen_rows-select after.omissions (api_sources events) (seen_ids events) (is_added events l)
      l.rows (is_left_out-note_complete events l)
