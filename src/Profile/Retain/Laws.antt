-- ===== src/Profile/Retain/Laws.antt =====
-- What ApplyRetainedEvents leaves of the counts of a source.
use where_token.Base.{
  ◌≡◌, refl, sym, ap, ◌∙◌, inl, inr, Bool, true, false, not, ◌&&◌, List, [], ◌∷◌, ◌++◌, arith,
  if◌then◌else◌, Bool-cases, map, select, any_of, ◌⊎◌,
}
use where_token.Base.Int.{ℤ, pos, ◌+ℤ◌, int_laws}
use where_token.Base.Text.{Text, text_eq, text_eq_iff, is_empty}
use where_token.Base.Dict.{member}
use where_token.Event.{UsageEvent, is_retained}
use where_token.Profile.Retain.{
  ObservationDay, day_event, is_left_out_day, events_from_days, retained_sources, without_counts,
  stripped, apply_retained_events,
}

-- the four counts of an event
pub data Count : Type 0 where
  miss cache_read cache_create output : Count

abbrev pub count_of : Count → UsageEvent → ℤ
count_of miss e = e.miss
count_of cache_read e = e.cache_read
count_of cache_create e = e.cache_create
count_of output e = e.output

-- the exact sum of a count over the rows of a source
unfoldable pub source_sum : Count → Text → List UsageEvent → ℤ
source_sum c s [] = pos 0
source_sum c s (e ∷ events) =
    let rest = source_sum c s events in if text_eq e.source s then count_of c e +ℤ rest else rest

abbrev pub is_retained_row : UsageEvent → Bool
is_retained_row e = is_retained e.derivation

count_of-without_counts : (c : Count) (e : UsageEvent) → count_of c (without_counts e) ≡ pos 0
unfolding without_counts
count_of-without_counts miss e = refl
count_of-without_counts cache_read e = refl
count_of-without_counts cache_create e = refl
count_of-without_counts output e = refl

module _ (c : Count) (s : Text) where
  source_sum-++ :
      (xs ys : List UsageEvent) → source_sum c s (xs ++ ys) ≡ source_sum c s xs +ℤ source_sum c s ys
  unfolding source_sum
  source_sum-++ [] ys = omega int_laws
  source_sum-++ (x ∷ xs) ys = elim (Bool-cases (text_eq x.source s)) [
    | inl mine ↦ rw (mine, if◌then◌else◌, source_sum-++ xs ys) omega int_laws
    | inr other ↦ rw (other, if◌then◌else◌) (source_sum-++ xs ys)
  ]

  -- a row of another source
  source_sum_other :
      (e : UsageEvent) (events : List UsageEvent)
      → text_eq e.source s ≡ false
      → source_sum c s (e ∷ events) ≡ source_sum c s events
  unfolding source_sum
  source_sum_other e events other = rw (other, if◌then◌else◌) refl

  source_sum_own :
      (e : UsageEvent) (events : List UsageEvent)
      → text_eq e.source s ≡ true
      → source_sum c s (e ∷ events) ≡ count_of c e +ℤ source_sum c s events
  unfolding source_sum
  source_sum_own e events own = rw (own, if◌then◌else◌) refl

  other_row :
      (e : UsageEvent) (events : List UsageEvent)
      → text_eq e.source s ≡ false
      → source_sum c s (select is_retained_row events)
        ≡ source_sum c s (select is_retained_row (e ∷ events))
  unfolding select
  other_row e events other = elim (Bool-cases (is_retained_row e)) [
    | inl kept ↦
        rw (kept, if◌then◌else◌) (sym (source_sum_other e (select is_retained_row events) other))
    | inr gone ↦ rw (gone, if◌then◌else◌) refl
  ]

  module _ (sources : List Text) where
    source-stripped : (e : UsageEvent) → (stripped sources e).source ≡ e.source
    unfolding stripped without_counts
    source-stripped e =
        elim (Bool-cases (member e.source sources && not (is_retained e.derivation))) [
          | inl gone ↦ rw (gone, if◌then◌else◌) refl
          | inr kept ↦ rw (kept, if◌then◌else◌) refl
        ]

    stripped_kept : (e : UsageEvent) → is_retained_row e ≡ true → stripped sources e ≡ e
    unfolding stripped
    stripped_kept e kept = ground (arith, kept)

    stripped_away : (e : UsageEvent) → member e.source sources ≡ false → stripped sources e ≡ e
    unfolding stripped
    stripped_away e away = rw (away, if◌then◌else◌) refl

    stripped_local :
        (e : UsageEvent)
        → member e.source sources ≡ true
        → is_retained_row e ≡ false
        → stripped sources e ≡ without_counts e
    unfolding stripped
    stripped_local e there gone = rw (there, gone, if◌then◌else◌) refl

    -- A source that has a retained row keeps the counts of its retained rows only.
    source_sum-stripped :
        (events : List UsageEvent)
        → member s sources ≡ true
        → source_sum c s (map (stripped sources) events)
          ≡ source_sum c s (select is_retained_row events)
    unfolding select without_counts
    source_sum-stripped [] there = refl
    source_sum-stripped (e ∷ events) there =
        let ind = source_sum-stripped events there in
        elim (Bool-cases (text_eq e.source s)) [
          | inl own ↦ elim (Bool-cases (is_retained_row e)) [
            | inl kept ↦
                rw (kept, if◌then◌else◌, stripped_kept e kept) rw
                  (
                    source_sum_own e (map (stripped sources) events) own,
                    source_sum_own e (select is_retained_row events) own,
                    ind,
                  )
                  refl
            | inr gone ↦
                let here : member e.source sources ≡ true =
                  ap (λ t. member t sources) ((text_eq_iff e.source s).0 own) ∙ there in
                rw (gone, if◌then◌else◌, stripped_local e here gone) rw
                  (
                    source_sum_own (without_counts e) (map (stripped sources) events) own,
                    count_of-without_counts c e,
                    ind,
                  )
                  omega int_laws
          ]
          | inr other ↦
              let away = ap (λ t. text_eq t s) (source-stripped e) ∙ other in
              source_sum_other (stripped sources e) (map (stripped sources) events) away
              ∙ ind
              ∙ other_row e events other
        ]

    -- Another source keeps its counts.
    source_sum-stripped_other :
        (events : List UsageEvent)
        → member s sources ≡ false
        → source_sum c s (map (stripped sources) events) ≡ source_sum c s events
    source_sum-stripped_other [] away = refl
    source_sum-stripped_other (e ∷ events) away =
        let ind = source_sum-stripped_other events away in
        elim (Bool-cases (text_eq e.source s)) [
          | inl own ↦
              let here = ap (λ t. member t sources) ((text_eq_iff e.source s).0 own) ∙ away in
              rw (stripped_away e here) rw
                (
                  source_sum_own e (map (stripped sources) events) own,
                  source_sum_own e events own,
                  ind,
                )
                refl
          | inr other ↦
              let out = ap (λ t. text_eq t s) (source-stripped e) ∙ other in
              source_sum_other (stripped sources e) (map (stripped sources) events) out
              ∙ ind
              ∙ sym (source_sum_other e events other)
        ]

    source_sum_all :
        (events : List UsageEvent)
        → source_sum c s (map (stripped sources) events)
          ≡ source_sum c s (if member s sources then select is_retained_row events else events)
    source_sum_all events = elim (Bool-cases (member s sources)) [
      | inl there ↦ rw (there, if◌then◌else◌) (source_sum-stripped events there)
      | inr away ↦ rw (away, if◌then◌else◌) (source_sum-stripped_other events away)
    ]

apply_retained_events_some :
    (events retained : List UsageEvent) (t : Text) (ts : List Text)
    → retained_sources retained ≡ t ∷ ts
    → apply_retained_events events retained
      ≡ map (stripped (retained_sources retained)) events ++ retained
unfolding apply_retained_events
apply_retained_events_some events retained t ts h = rw h refl

abbrev pub is_of : Text → UsageEvent → Bool
is_of s e = text_eq e.source s

module _ (source : Text) (named : is_empty source ≡ false) where
  retained_sources-days :
      (days : List ObservationDay)
      → (events_from_days source days ≡ [])
        ⊎ ((ss : List Text) × (retained_sources (events_from_days source days) ≡ source ∷ ss))
  unfolding events_from_days retained_sources day_event
  retained_sources-days [] = inl refl
  retained_sources-days (d ∷ days) = elim (Bool-cases (is_left_out_day d)) [
    | inl gone ↦ rw (gone, if◌then◌else◌) (retained_sources-days days)
    | inr kept ↦
        inr (retained_sources (events_from_days source days), rw (kept, named, if◌then◌else◌) refl)
  ]

  member-retained_sources :
      (s : Text) (days : List ObservationDay)
      → member s (retained_sources (events_from_days source days))
        ≡ any_of (is_of s) (events_from_days source days)
  unfolding events_from_days retained_sources day_event member any_of
  member-retained_sources s [] = refl
  member-retained_sources s (d ∷ days) =
      let ind = member-retained_sources s days in
      elim (Bool-cases (is_left_out_day d)) [
        | inl gone ↦ rw (gone, if◌then◌else◌) ind
        | inr kept ↦ rw (kept, if◌then◌else◌, named, if◌then◌else◌, ind) refl
      ]

  -- The rows of EventsFromDays take the place of the local rows of their source: after
  -- ApplyRetainedEvents a source with such a row counts its retained rows, these included, and
  -- nothing else, and every other source counts what it counted. The sums are exact, and the source
  -- of the days is not empty.
  pub source_sum-apply_retained_events :
      (c : Count) (s : Text) (events : List UsageEvent) (days : List ObservationDay)
      → let retained = events_from_days source days in
        source_sum c s (apply_retained_events events retained)
        ≡ source_sum c s
            (if any_of (is_of s) retained then select is_retained_row events else events)
          +ℤ source_sum c s retained
  unfolding apply_retained_events any_of source_sum retained_sources
  source_sum-apply_retained_events c s events days =
      let retained = events_from_days source days in
      elim (retained_sources-days days) [
        | inl no_row ↦ rw (no_row, if◌then◌else◌) omega int_laws
        | inr (ss, some_row) ↦
            rw
              (
                apply_retained_events_some events retained source ss some_row,
                source_sum-++ c s (map (stripped (retained_sources retained)) events) retained,
                source_sum_all c s (retained_sources retained) events,
                member-retained_sources s days,
              )
              refl
      ]
