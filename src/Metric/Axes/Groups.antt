-- ===== src/Metric/Axes/Groups.antt =====
-- Each axis of AggregateAt holds, under a key, the sum of exactly the events with the key.
use where_token.Base.{
  select, ◌≡◌, refl, ap, ◌∙◌, inl, inr, Option, none, some, List, [], ◌∷◌, if◌then◌else◌,
  Bool-cases,
}
use where_token.Base.Text.{Text, text_eq, text_eq_iff}
use where_token.Base.Dict.{Dict, get, put, get-put}
use where_token.Event.{UsageEvent, TurnEvent}
use where_token.Metric.Merge.{merge_by_request}
use where_token.Metric.Slice.{Charge, Slice, new_slice, add_slice}
use where_token.Metric.Axes.{
  Axes, SourceVendor, or_new, pair_key, new_cross, add_cross, add_record, model_key, new_model,
  add_model, add_merged, add_events, add_turn, add_turns, no_axes, axes, turned,
}
use where_token.Price.{Rate}

module _ {E A : Type 0} (start : E → A) (step : A → E → A) where
  -- what items add to an entry, which the first of them makes where it is missing
  unfoldable pub gathered : Option A → List E → Option A
  gathered entry [] = entry
  gathered entry (e ∷ items) = gathered (some (step (or_new (start e) entry) e)) items

  -- the entry that a loop writes for an item
  abbrev entry_with : (E → Text) → E → Dict A → Dict A
  entry_with key e m = put (key e) (step (or_new (start e) (get (key e) m)) e) m

  gathered-cons :
      (key : E → Text) (k : Text) (e : E) (items : List E) (m : Dict A)
      → gathered (get k (entry_with key e m)) (select (λ x. text_eq (key x) k) items)
        ≡ gathered (get k m) (select (λ x. text_eq (key x) k) (e ∷ items))
  unfolding gathered select
  gathered-cons key k e items m =
      let written = get-put (key e) k (step (or_new (start e) (get (key e) m)) e) m in
      elim (Bool-cases (text_eq (key e) k)) [
        | inl same ↦
            let here : key e ≡ k = (text_eq_iff (key e) k).0 same in
            rw (written, same, if◌then◌else◌, here) refl
        | inr away ↦ rw (written, away, if◌then◌else◌) refl
      ]

abbrev pub turns_up : Slice → TurnEvent → Slice
turns_up s t = turned s

turns_source :
    {Price : Type 0} (k : Text) (a : Axes Price) (turns : List TurnEvent)
    → get k (add_turns a turns).by_source
      ≡ gathered
          (λ t. new_slice t.source)
          turns_up
          (get k a.by_source)
          (select (λ t. text_eq t.source k) turns)
unfolding add_turns add_turn
turns_source k a [] = unfold gathered select in refl
turns_source k a (t ∷ turns) =
    turns_source k (add_turn a t) turns
    ∙ gathered-cons (λ x. new_slice x.source) turns_up (λ x. x.source) k t turns a.by_source

turns_rest :
    {Price : Type 0} (a : Axes Price) (turns : List TurnEvent)
    → ((add_turns a turns).by_vendor ≡ a.by_vendor)
      × ((add_turns a turns).by_cross ≡ a.by_cross)
      × ((add_turns a turns).by_model ≡ a.by_model)
unfolding add_turns add_turn
turns_rest a [] = (refl, refl, refl)
turns_rest a (t ∷ turns) = turns_rest (add_turn a t) turns

module _ {Price : Type 0} (table : List (Rate Price)) (charge : UsageEvent → Charge) where
  -- a map that the loop over the events writes by a key
  axis_from :
      {A : Type 0} (start : UsageEvent → A) (step : A → UsageEvent → A) (key : UsageEvent → Text)
      (map_of : Axes Price → Dict A)
      → ((a : Axes Price) (e : UsageEvent)
          → map_of (add_merged table charge a e) ≡ entry_with start step key e (map_of a))
      → (k : Text) (a : Axes Price) (events : List UsageEvent)
      → get k (map_of (add_events table charge a events))
        ≡ gathered start step (get k (map_of a)) (select (λ e. text_eq (key e) k) events)
  unfolding add_events
  axis_from start step key map_of writes k a [] = unfold gathered select in refl
  axis_from start step key map_of writes k a (e ∷ events) =
      axis_from start step key map_of writes k (add_merged table charge a e) events
      ∙ ap (λ m. gathered start step (get k m) (select (λ x. text_eq (key x) k) events))
          (writes a e)
      ∙ gathered-cons start step key k e events (map_of a)

  abbrev pub adds : Slice → UsageEvent → Slice
  adds s e = add_slice s e (charge e)

  abbrev pub records : Slice → UsageEvent → Slice
  records s e = add_record s e (charge e)

  abbrev pub crosses : SourceVendor → UsageEvent → SourceVendor
  crosses s e = add_cross s e (charge e)

  writes_source :
      (a : Axes Price) (e : UsageEvent)
      → (add_merged table charge a e).by_source
        ≡ entry_with (λ x. new_slice x.source) records (λ x. x.source) e a.by_source
  unfolding add_merged
  writes_source a e = refl

  writes_vendor :
      (a : Axes Price) (e : UsageEvent)
      → (add_merged table charge a e).by_vendor
        ≡ entry_with (λ x. new_slice x.vendor) adds (λ x. x.vendor) e a.by_vendor
  unfolding add_merged
  writes_vendor a e = refl

  writes_cross :
      (a : Axes Price) (e : UsageEvent)
      → (add_merged table charge a e).by_cross
        ≡ entry_with new_cross crosses (λ x. pair_key x.source x.vendor) e a.by_cross
  unfolding add_merged
  writes_cross a e = refl

  writes_model :
      (a : Axes Price) (e : UsageEvent)
      → (add_merged table charge a e).by_model
        ≡ entry_with
            (new_model table charge)
            (add_model table charge)
            (model_key table charge)
            e
            a.by_model
  unfolding add_merged
  writes_model a e = refl

  -- the events with a key among the merged ones
  abbrev pub merged_with : (UsageEvent → Text) → Text → List UsageEvent → List UsageEvent
  merged_with key k events = select (λ e. text_eq (key e) k) (merge_by_request events)

  -- Under every key, AggregateAt adds up by source, by vendor, by source and vendor, and by model
  -- exactly the merged events with the key, in their order; a source also counts its turns, and a
  -- key that no event and no turn has is not there.
  pub axes-gathered :
      (events : List UsageEvent) (turns : List TurnEvent) (k : Text)
      → let a = axes table charge events turns in
        (get k a.by_source
          ≡ gathered
              (λ t. new_slice t.source)
              turns_up
              (gathered
                (λ e. new_slice e.source)
                records
                none
                (merged_with (λ e. e.source) k events))
              (select (λ t. text_eq t.source k) turns))
        × (get k a.by_vendor
            ≡ gathered (λ e. new_slice e.vendor) adds none (merged_with (λ e. e.vendor) k events))
        × (get k a.by_cross
            ≡ gathered new_cross crosses none
                (merged_with (λ e. pair_key e.source e.vendor) k events))
        × (get k a.by_model
            ≡ gathered
                (new_model table charge)
                (add_model table charge)
                none
                (merged_with (model_key table charge) k events))
  unfolding axes get
  axes-gathered events turns k =
      let merged = merge_by_request events in
      let start = no_axes in
      let a = add_events table charge start merged in
      let (vendor, cross, model) = turns_rest a turns in
      (
        turns_source k a turns
            ∙ ap
                (λ entry.
                  gathered (λ t. new_slice t.source) turns_up entry
                    (select (λ t. text_eq t.source k) turns))
                (axis_from (λ e. new_slice e.source) records (λ e. e.source) (λ x. x.by_source)
                  writes_source k start merged),
        ap (get k) vendor
            ∙ axis_from (λ e. new_slice e.vendor) adds (λ e. e.vendor) (λ x. x.by_vendor)
                writes_vendor k start merged,
        ap (get k) cross
            ∙ axis_from new_cross crosses (λ e. pair_key e.source e.vendor) (λ x. x.by_cross)
                writes_cross k start merged,
        ap (get k) model
            ∙ axis_from (new_model table charge) (add_model table charge) (model_key table charge)
                (λ x. x.by_model) writes_model k start merged,
      )
