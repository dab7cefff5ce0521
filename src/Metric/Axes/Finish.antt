-- ===== src/Metric/Axes/Finish.antt =====
-- internal/metric/summary.go: what AggregateAt does after its loops. `sort.Slice` may leave equal
-- totals in any order; here they keep the order of the map.
use where_token.Base.{ℕ, List, [], ◌∷◌, if◌then◌else◌, map, length}
use where_token.Base.Int.{ℤ, pos, leb_ℤ}
use where_token.Base.Text.{Text}
use where_token.Base.Dict.{Dict, get}
use where_token.Event.{UsageEvent, TurnEvent}
use where_token.Metric.Sum.{sat_add}
use where_token.Metric.Merge.{merge_by_request}
use where_token.Metric.Slice.{Charge, Slice, status, total, finish_cost}
use where_token.Price.{Rate}
use where_token.Metric.Axes.{
  SourceVendor, ModelSlice, Axes, SourceSlice, Summary, or_new, axes, join_keys,
}

-- sort.Slice by falling total, which leaves equal totals in any order
unfoldable pub insert_total {ℓ} : {A : Type ℓ} → (A → ℤ) → A → List A → List A
insert_total of x [] = x ∷ []
insert_total of x (y ∷ ys) =
    let rest = insert_total of x ys in if leb_ℤ (of y) (of x) then x ∷ y ∷ ys else y ∷ rest

unfoldable pub sort_totals {ℓ} : {A : Type ℓ} → (A → ℤ) → List A → List A
sort_totals of [] = []
sort_totals of (x ∷ xs) = insert_total of x (sort_totals of xs)

-- `SourceVendor.Total`
unfoldable pub cross_total : SourceVendor → ℤ
cross_total s = sat_add (sat_add s.miss s.cache_read) (sat_add s.cache_create s.output)

abbrev pub finish_cross : SourceVendor → SourceVendor
finish_cross s = record s { cost_status = status s.priced_tokens s.unpriced_tokens }

abbrev pub finish_model : {Price : Type 0} → ModelSlice Price → ModelSlice Price
finish_model m = record m { slice = finish_cost m.slice }

abbrev finish_source : Dict (List Text) → Slice → SourceSlice
finish_source derivations s = record {
  slice = finish_cost s;
  derivation = join_keys (or_new [] (get s.id derivations));
}

-- the lines of `AggregateAt` after its loops; `n` is the number of merged events
unfoldable pub finish_axes : {Price : Type 0} → ℕ → Axes Price → Summary Price
finish_axes n a = record {
  all = finish_cost (record a.all { records = pos n });
  derivation = join_keys a.derivations;
  by_source =
      sort_totals (λ s. total s.slice)
        (map (λ entry. finish_source a.source_derivations entry.1) a.by_source);
  by_vendor = sort_totals total (map (λ entry. finish_cost entry.1) a.by_vendor);
  by_cross = sort_totals cross_total (map (λ entry. finish_cross entry.1) a.by_cross);
  by_model = sort_totals (λ m. total m.slice) (map (λ entry. finish_model entry.1) a.by_model);
}

module _ {Price : Type 0} (table : List (Rate Price)) (charge : UsageEvent → Charge) where
  -- `AggregateAt`
  unfoldable pub aggregate_at : List UsageEvent → List TurnEvent → Summary Price
  aggregate_at events turns =
      finish_axes (length (merge_by_request events)) (axes table charge events turns)
