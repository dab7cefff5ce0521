-- ===== src/Ledger/Observe/Chain/Events.antt =====
-- The events that the readers make of the chained days, by their request id.
use where_token.Base.{
  select, select-append, ◌≡◌, refl, sym, Bool, true, false, not, ◌&&◌, ◌||◌, Option, none, some,
  List, [], ◌∷◌, ◌++◌, arith, if◌then◌else◌, ◌∙◌, Option-cases, Bool-cases, inl, inr, ap,
}
use where_token.Base.Text.{Text, bytes, text_eq, text_eq_iff, is_empty}
use where_token.Base.Dict.{Dict, get}
use where_token.Base.Order.{sort_texts}
use where_token.Event.{UsageEvent}
use where_token.Ledger.Observe.Tables.{DayComp, is_blank, Observations}
use where_token.Ledger.Observe.Chain.{
  chain_day_map, listed, of_day, events_of, retained_event, days_outside, skipped_day, DayRange,
  observations_asc, account_supplement, supplement_event, cached_event, is_cached, covered_ranges,
}
use where_token.Ledger.Observe.Chain.Laws.{get-chain_day_map, last_word, or_before}
use where_token.Ledger.Observe.Chain.Listing.{
  IsUnique, copies, copies-sorted, once, chain_day_map-IsUnique,
}

-- the events with a request id
abbrev pub named : Text → List UsageEvent → List UsageEvent
named id = select (λ e. text_eq e.request_id id)

text_eq-append : (p s t : Text) → text_eq (p ++ s) (p ++ t) ≡ text_eq s t
unfolding text_eq
text_eq-append [] s t = refl
text_eq-append (c ∷ p) s t = ground (arith, text_eq-append p s t)

module _ (event : Text → DayComp → UsageEvent) (days : Dict DayComp) (id k : Text) (c : Bool) where
  abbrev IsNamer : Type 0
  IsNamer = (day : Text) (d : DayComp) → text_eq (event day d).request_id id ≡ (text_eq day k && c)

  -- the events with the id that come from copies of the day
  abbrev of_copies : List Text → List UsageEvent
  of_copies [] = []
  of_copies (j ∷ js) = (if c then of_day (event k) (get k days) else []) ++ of_copies js

  named-of_day :
      IsNamer
      → (j : Text) (o : Option DayComp)
      → named id (of_day (event j) o) ≡ (if text_eq j k && c then of_day (event k) o else [])
  unfolding select
  named-of_day h j none = ground arith
  named-of_day h j (some d) = ground (arith, h j d, text_eq_iff j k)

  named-events_of :
      IsNamer
      → (keys : List Text) → named id (events_of event days keys) ≡ of_copies (copies k keys)
  unfolding events_of select
  named-events_of h [] = refl
  named-events_of h (j ∷ keys) =
      rw
        (select-append (λ e. text_eq e.request_id id) (of_day (event j) (get j days))
          (events_of event days keys))
        (ground (arith, named-of_day h j (get j days), named-events_of h keys, text_eq_iff j k))

-- at most one event for the row of a day
unfoldable pub shown : Bool → (DayComp → UsageEvent) → Option DayComp → List UsageEvent
shown skipped event none = []
shown skipped event (some d) = if skipped || is_blank d then [] else event d ∷ []

of_copies-once :
    (event : Text → DayComp → UsageEvent) (days : Dict DayComp) (id k : Text) (c skipped : Bool)
    → of_copies event days id k c (once skipped k (get k days))
      ≡ (if c then shown skipped (event k) (get k days) else [])
unfolding shown
of_copies-once event days id k c skipped = elim (Option-cases (get k days)) [
  | inl missing ↦ rw missing (ground arith)
  | inr (d, there) ↦ elim (Bool-cases (skipped || is_blank d)) [
    | inl e ↦ rw (there, e) (ground arith)
    | inr e ↦ rw (there, e) (ground arith)
  ]
]

-- The events with a request id, of a reader whose events name their day.
pub named-listed :
    (event : Text → DayComp → UsageEvent) (days : Dict DayComp) (id k : Text) (c : Bool)
    (skipped : Text → Bool)
    → ((day : Text) (d : DayComp) → text_eq (event day d).request_id id ≡ (text_eq day k && c))
    → IsUnique days
    → named id (events_of event days (sort_texts (listed skipped days)))
      ≡ (if c then shown (skipped k) (event k) (get k days) else [])
named-listed event days id k c skipped h u =
    named-events_of event days id k c h (sort_texts (listed skipped days))
    ∙ ap (of_copies event days id k c) (copies-sorted k skipped days u)
    ∙ of_copies-once event days id k c (skipped k)

retained_id :
    (source k day : Text) (d : DayComp)
    → text_eq (retained_event source day d).request_id (bytes "retained:" ++ k)
      ≡ (text_eq day k && true)
unfolding retained_event
retained_id source k day d = ground (arith, text_eq-append (bytes "retained:") day k)

-- the chained row of a day, by the latest observation that says something of it
abbrev pub latest_row : Text → Text → Observations → Option DayComp
latest_row source day o = or_before (last_word day (observations_asc source [] o)) none

-- For a source that is not empty, DaysOutside returns exactly one event for a day that the scan
-- neither covered nor has, with the row of the latest observation that speaks of the day, and none
-- for another day or for a day that this observation leaves without usage.
pub days_outside-named :
    (source day : Text) (ranges : List DayRange) (already : List UsageEvent) (o : Observations)
    → is_empty source ≡ false
    → named (bytes "retained:" ++ day) (days_outside source ranges already o)
      ≡ shown
          (skipped_day source ranges already day)
          (retained_event source day)
          (latest_row source day o)
unfolding days_outside
days_outside-named source day ranges already o h =
    let obs = observations_asc source [] o in
    rw (h, if◌then◌else◌, sym (get-chain_day_map day obs))
      (named-listed (retained_event source) (chain_day_map obs) (bytes "retained:" ++ day) day true
        (skipped_day source ranges already) (retained_id source day) (chain_day_map-IsUnique obs))

supplement_retained :
    (source k : Text) (lookback : DayRange) (finished : List DayRange) (day : Text) (d : DayComp)
    → text_eq (supplement_event source lookback finished day d).request_id (bytes "retained:" ++ k)
      ≡ (text_eq day k && not (is_cached lookback finished k))
unfolding supplement_event retained_event text_eq
supplement_retained source k lookback finished day d = ground (arith, text_eq_iff day k)

supplement_cached :
    (source k : Text) (lookback : DayRange) (finished : List DayRange) (day : Text) (d : DayComp)
    → text_eq
        (supplement_event source lookback finished day d).request_id
        (bytes "cursor-api:covered:" ++ k)
      ≡ (text_eq day k && is_cached lookback finished k)
unfolding supplement_event retained_event text_eq
supplement_cached source k lookback finished day d = ground (arith, text_eq_iff day k)

supplement_shown :
    (source day : Text) (lookback : DayRange) (finished : List DayRange) (skipped : Bool)
    (row : Option DayComp)
    → ((if not (is_cached lookback finished day)
          then shown skipped (supplement_event source lookback finished day) row
          else [])
        ≡ (if is_cached lookback finished day
            then []
            else shown skipped (retained_event source day) row))
      × ((if is_cached lookback finished day
            then shown skipped (supplement_event source lookback finished day) row
            else [])
          ≡ (if is_cached lookback finished day
              then shown skipped (cached_event source day) row
              else []))
unfolding shown supplement_event
supplement_shown source day lookback finished skipped none = ground arith
supplement_shown source day lookback finished skipped (some d) = ground arith

-- For a source that is not empty, AccountSupplement returns exactly one event for each day that the
-- scan neither fetched nor has and that the latest observation speaking of it gives usage: an API
-- total where the day lies in the lookback and in a finished window, else a retained event.
pub account_supplement-named :
    (source day : Text) (lookback : DayRange) (fetched : List DayRange) (already : List UsageEvent)
    (o : Observations)
    → is_empty source ≡ false
    → (named (bytes "retained:" ++ day) (account_supplement source lookback fetched already o) ≡ (
        if is_cached lookback (covered_ranges source o) day
        then []
        else shown
            (skipped_day source fetched already day)
            (retained_event source day)
            (latest_row source day o)))
      × (named
            (bytes "cursor-api:covered:" ++ day)
            (account_supplement source lookback fetched already o)
          ≡ (if is_cached lookback (covered_ranges source o) day
              then shown
                  (skipped_day source fetched already day)
                  (cached_event source day)
                  (latest_row source day o)
              else []))
unfolding account_supplement
account_supplement-named source day lookback fetched already o h =
    let obs = observations_asc source [] o in
    let finished = covered_ranges source o in
    let cached = is_cached lookback finished day in
    let event = supplement_event source lookback finished in
    let skipped = skipped_day source fetched already in
    let u = chain_day_map-IsUnique obs in
    let same = supplement_shown source day lookback finished (skipped day) in
    rw (h, if◌then◌else◌, sym (get-chain_day_map day obs))
      (
        named-listed event (chain_day_map obs) (bytes "retained:" ++ day) day (not cached) skipped
              (supplement_retained source day lookback finished) u
            ∙ (same (get day (chain_day_map obs))).0,
        named-listed event (chain_day_map obs) (bytes "cursor-api:covered:" ++ day) day cached
              skipped (supplement_cached source day lookback finished) u
            ∙ (same (get day (chain_day_map obs))).1,
      )
