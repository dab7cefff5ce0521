-- ===== src/Ledger/Observe/Save.antt =====
-- What storing an observation does to the days that are read back.
use where_token.Base.{
  select, ◌≡◌, refl, Option, none, some, List, [], ◌∷◌, arith, if◌then◌else◌, ◌∙◌, ap, map,
}
use where_token.Base.Text.{Text, text_eq, text_eq_iff}
use where_token.Base.Dict.{Dict, get, put, get-put}
use where_token.Base.Order.{insert_by, sort_by, text_leb_refl}
use where_token.Event.{UsageEvent}
use where_token.Event.Clock.{utc_day, is_zero_time}
use where_token.Ledger.Observe.{
  add_event, group_event, row_or_blank, group_from, group_days, is_kept,
}
use where_token.Ledger.Observe.Tables.{DayComp, is_blank}
use where_token.Ledger.Observe.Chain.{within}
use where_token.Ledger.Observe.Chain.Laws.{last_row}

-- the sums of a day over the events, where some event has the day
unfoldable pub total_from : Text → Option DayComp → List UsageEvent → Option DayComp
total_from day acc [] = acc
total_from day acc (e ∷ events) =
    total_from day
      (if is_zero_time e.timestamp
        then acc
        else if text_eq (utc_day e.timestamp) day
        then some (add_event e (row_or_blank day acc))
        else acc)
      events

abbrev pub day_total : Text → List UsageEvent → Option DayComp
day_total day = total_from day none

-- a row that counts something
abbrev pub counted : Option DayComp → Option DayComp
counted none = none
counted (some d) = if is_blank d then none else some d

get-group_from :
    (day : Text) (by : Dict DayComp) (events : List UsageEvent)
    → get day (group_from by events) ≡ total_from day (get day by) events
unfolding group_from total_from
get-group_from day by [] = refl
get-group_from day by (e ∷ events) =
    let on = utc_day e.timestamp in
    ground (
      arith,
      get-group_from day by events,
      get-group_from day (group_event e by) events,
      get-put on day (add_event e (row_or_blank on (get on by))) by,
      text_eq_iff on day,
    )

-- Each row stands under its own day, once.
abbrev IsGrouped : Dict DayComp → Type 0
IsGrouped [] = Unit
IsGrouped ((k, d) ∷ m) = (d.day ≡ k) × (get k m ≡ none) × IsGrouped m

put-IsGrouped :
    (k : Text) (d : DayComp) (m : Dict DayComp) → d.day ≡ k → IsGrouped m → IsGrouped (put k d m)
unfolding put get
put-IsGrouped k d [] e h = (e, refl, tt)
put-IsGrouped k d ((j, w) ∷ m) e h =
    ground (arith, text_eq_iff j k, text_eq_iff k j, put-IsGrouped k d m e h.2, get-put k j d m)

get-IsGrouped : (k : Text) (m : Dict DayComp) → IsGrouped m → (row_or_blank k (get k m)).day ≡ k
unfolding get
get-IsGrouped k [] h = refl
get-IsGrouped k ((j, d) ∷ m) h = ground (arith, text_eq_iff j k, get-IsGrouped k m h.2)

group_from-IsGrouped :
    (by : Dict DayComp) (events : List UsageEvent) → IsGrouped by → IsGrouped (group_from by events)
unfolding group_from
group_from-IsGrouped by [] h = h
group_from-IsGrouped by (e ∷ events) h =
    let on = utc_day e.timestamp in
    ground (
      arith,
      group_from-IsGrouped by events h,
      group_from-IsGrouped (group_event e by) events (
          put-IsGrouped on (add_event e (row_or_blank on (get on by))) by (get-IsGrouped on by h)
            h),
    )

last_row_missing :
    (k : Text) (m : Dict DayComp)
    → IsGrouped m
    → get k m ≡ none
    → last_row k (map (λ entry. entry.1) m) ≡ none
unfolding get last_row
last_row_missing k [] h e = refl
last_row_missing k ((j, d) ∷ m) h e = ground (arith, text_eq_iff j k, last_row_missing k m h.2)

last_row-group :
    (k : Text) (m : Dict DayComp)
    → IsGrouped m
    → last_row k (map (λ entry. entry.1) m) ≡ counted (get k m)
unfolding get last_row
last_row-group k [] h = refl
last_row-group k ((j, d) ∷ m) h =
    ground (
      arith,
      text_eq_iff j k,
      text_eq_iff d.day k,
      last_row-group k m h.2,
      last_row_missing k m h.2,
    )

last_row-insert_by :
    (k : Text) (d : DayComp) (ds : List DayComp)
    → last_row k (insert_by (λ x. x.day) d ds) ≡ last_row k (d ∷ ds)
unfolding insert_by last_row
last_row-insert_by k d [] = refl
last_row-insert_by k d (e ∷ ds) =
    ground
      (arith, last_row-insert_by k d ds, text_eq_iff d.day k, text_eq_iff e.day k, text_leb_refl k)

pub last_row-sort_by :
    (k : Text) (ds : List DayComp) → last_row k (sort_by (λ x. x.day) ds) ≡ last_row k ds
unfolding sort_by last_row
last_row-sort_by k [] = refl
last_row-sort_by k (d ∷ ds) =
    ground (arith, last_row-insert_by k d (sort_by (λ x. x.day) ds), last_row-sort_by k ds)

-- The rows that groupDays makes are the sums of the days.
pub last_row-group_days :
    (day : Text) (events : List UsageEvent)
    → last_row day (group_days events) ≡ counted (day_total day events)
unfolding group_days get
last_row-group_days day events =
    last_row-sort_by day (map (λ entry. entry.1) (group_from [] events))
    ∙ last_row-group day (group_from [] events) (group_from-IsGrouped [] events tt)
    ∙ ap counted (get-group_from day [] events)

pub last_row-kept :
    (day from to : Text) (ds : List DayComp)
    → last_row day (select (is_kept from to) ds)
      ≡ (if within from to day then last_row day ds else none)
unfolding select last_row is_kept within
last_row-kept day from to [] = ground arith
last_row-kept day from to (d ∷ ds) =
    ground (arith, last_row-kept day from to ds, text_eq_iff d.day day)
