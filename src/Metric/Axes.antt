-- ===== src/Metric/Axes.antt =====
-- internal/metric/summary.go: AggregateAt adds the merged events up by source, by vendor, by both and
-- by model. Labels, the calendar and the drill-down are left out; a map holds its keys in the order
-- in which they came.

pub mod Finish
pub mod Groups
use where_token.Base.{
  ℕ, Bool, true, false, not, ◌&&◌, Option, none, some, List, [], ◌∷◌, ◌++◌, if◌then◌else◌, ltb, map,
  length,
}
use where_token.Base.Int.{ℤ, pos, ltb_ℤ, leb_ℤ}
use where_token.Base.Int64.{add64}
use where_token.Base.Text.{Text, bytes, is_empty}
use where_token.Base.Dict.{Dict, get, put, member}
use where_token.Base.Order.{sort_texts}
use where_token.Event.{Quality, Time, UsageEvent, TurnEvent, derivation_text}
use where_token.Profile.Keep.{join_comma}
use where_token.Metric.Sum.{sat_add}
use where_token.Metric.Merge.{quality_rank, merge_by_request}
use where_token.Metric.Slice.{
  Charge, CostStatus, Slice, unset, status, new_slice, total, tokens, add_slice, finish_cost,
}
use where_token.Price.{Rate, lookup}
use where_token.Price.Model.{normalize}

-- `SourceVendor`
pub record SourceVendor : Type 0 where
  pub source : Text
  pub vendor : Text
  pub miss : ℤ
  pub cache_read : ℤ
  pub cache_create : ℤ
  pub output : ℤ
  pub requests : ℤ
  pub quality : Quality
  pub cost_micro : ℤ
  pub priced_tokens : ℤ
  pub unpriced_tokens : ℤ
  pub cost_status : CostStatus

-- `ModelSlice`
pub record ModelSlice (Price : Type 0) : Type 0 where
  pub vendor : Text
  pub model : Text
  pub slice : Slice
  pub rate : Option (Rate Price)

-- the maps of `AggregateAt`
pub record Axes (Price : Type 0) : Type 0 where
  pub all : Slice
  pub by_source : Dict Slice
  pub by_vendor : Dict Slice
  pub by_cross : Dict SourceVendor
  pub by_model : Dict (ModelSlice Price)
  pub source_derivations : Dict (List Text)
  pub derivations : List Text

-- a slice of BySource with its Derivation
pub record SourceSlice : Type 0 where
  pub slice : Slice
  pub derivation : Text

-- `Summary`
pub record Summary (Price : Type 0) : Type 0 where
  pub all : Slice
  pub derivation : Text
  pub by_source : List SourceSlice
  pub by_vendor : List Slice
  pub by_cross : List SourceVendor
  pub by_model : List (ModelSlice Price)

abbrev pub or_new {ℓ} : {A : Type ℓ} → A → Option A → A
or_new fresh none = fresh
or_new fresh (some a) = a

-- the key of two texts that a zero byte joins
abbrev pub pair_key : Text → Text → Text
pair_key a b = a ++ (0 ∷ b)

abbrev pub new_cross : UsageEvent → SourceVendor
new_cross e = record {
  source = e.source;
  vendor = e.vendor;
  miss = pos 0;
  cache_read = pos 0;
  cache_create = pos 0;
  output = pos 0;
  requests = pos 0;
  quality = Quality.other [];
  cost_micro = pos 0;
  priced_tokens = pos 0;
  unpriced_tokens = pos 0;
  cost_status = unset;
}

-- the lines of the loop that add to `cross`
unfoldable pub add_cross : SourceVendor → UsageEvent → Charge → SourceVendor
add_cross s e ch =
    let t = record s {
      miss = sat_add s.miss e.miss;
      cache_read = sat_add s.cache_read e.cache_read;
      cache_create = sat_add s.cache_create e.cache_create;
      output = sat_add s.output e.output;
      requests = if e.skip_request then s.requests else add64 s.requests (pos 1);
      quality =
          if ltb (quality_rank s.quality) (quality_rank e.quality) then e.quality else s.quality;
    } in
    if ch.ok
    then record t {
      cost_micro = sat_add s.cost_micro ch.micro;
      priced_tokens = sat_add s.priced_tokens (tokens e);
    }
    else if ltb_ℤ (pos 0) (tokens e)
    then record t { unpriced_tokens = sat_add s.unpriced_tokens (tokens e) }
    else t

-- src.Records++ after `addSlice`
unfoldable pub add_record : Slice → UsageEvent → Charge → Slice
add_record s e ch = let t = add_slice s e ch in record t { records = add64 t.records (pos 1) }

-- `m[k] = struct{}{}`
abbrev add_key : Text → List Text → List Text
add_key k set = if member k set then set else k ∷ set

-- `joinKeys`
abbrev pub join_keys : List Text → Text
join_keys set = join_comma (sort_texts set)

module _ {Price : Type 0} (table : List (Rate Price)) (charge : UsageEvent → Charge) where
  -- `price.Resolve` of the event, without its memo
  abbrev pub card_of : UsageEvent → Option (Rate Price)
  card_of e = lookup table e.vendor (normalize e.model) e.timestamp

  -- the key of `modelSlice`
  unfoldable pub model_key : UsageEvent → Text
  model_key e = pair_key e.vendor (elim (card_of e) [ none ↦ [] | some _ ↦ normalize e.model ])

  unfoldable pub new_model : UsageEvent → ModelSlice Price
  new_model e = elim (card_of e) [
    | none ↦ record { vendor = e.vendor; model = []; slice = new_slice []; rate = none }
    | some r ↦ record {
      vendor = e.vendor;
      model = normalize e.model;
      slice = new_slice (normalize e.model);
      rate = some r;
    }
  ]

  unfoldable pub add_model : ModelSlice Price → UsageEvent → ModelSlice Price
  add_model m e = record m { slice = add_slice m.slice e (charge e) }

  -- the body of the loop over the merged events
  unfoldable pub add_merged : Axes Price → UsageEvent → Axes Price
  add_merged a e =
      let ch = charge e in
      let of_source = or_new [] (get e.source a.source_derivations) in
      let label = derivation_text e.derivation in
      record {
        all = add_slice a.all e ch;
        by_source =
            put e.source (add_record (or_new (new_slice e.source) (get e.source a.by_source)) e ch)
              a.by_source;
        by_vendor =
            put e.vendor (add_slice (or_new (new_slice e.vendor) (get e.vendor a.by_vendor)) e ch)
              a.by_vendor;
        by_cross =
            let k = pair_key e.source e.vendor in
            put k (add_cross (or_new (new_cross e) (get k a.by_cross)) e ch) a.by_cross;
        by_model =
            let k = model_key e in
            put k (add_model (or_new (new_model e) (get k a.by_model)) e) a.by_model;
        source_derivations =
            if is_empty label
            then a.source_derivations
            else put e.source (add_key label of_source) a.source_derivations;
        derivations = if is_empty label then a.derivations else add_key label a.derivations;
      }

  unfoldable pub add_events : Axes Price → List UsageEvent → Axes Price
  add_events a [] = a
  add_events a (e ∷ events) = add_events (add_merged a e) events

abbrev pub no_axes : {Price : Type 0} → Axes Price
no_axes = record {
  all = new_slice (bytes "all");
  by_source = [];
  by_vendor = [];
  by_cross = [];
  by_model = [];
  source_derivations = [];
  derivations = [];
}

abbrev pub turned : Slice → Slice
turned s = record s { user_turns = add64 s.user_turns (pos 1) }

-- the body of the loop over the turns
unfoldable pub add_turn : {Price : Type 0} → Axes Price → TurnEvent → Axes Price
add_turn a t = record a {
  all = turned a.all;
  by_source =
      put t.source (turned (or_new (new_slice t.source) (get t.source a.by_source))) a.by_source;
}

unfoldable pub add_turns : {Price : Type 0} → Axes Price → List TurnEvent → Axes Price
add_turns a [] = a
add_turns a (t ∷ turns) = add_turns (add_turn a t) turns

module _ {Price : Type 0} (table : List (Rate Price)) (charge : UsageEvent → Charge) where
  -- the maps of `AggregateAt` after its loops
  unfoldable pub axes : List UsageEvent → List TurnEvent → Axes Price
  axes events turns = add_turns (add_events table charge no_axes (merge_by_request events)) turns
