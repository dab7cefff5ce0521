-- ===== src/Metric/Slice.antt =====
-- `Slice` of internal/metric/summary.go: the totals of a list of events.
pub mod Laws
use where_token.Base.{◌≡◌, Bool, true, false, not, ◌&&◌, List, [], ◌∷◌, if◌then◌else◌, ltb, ◌==◌}
use where_token.Base.Int.{ℤ, pos, ltb_ℤ, eqb_ℤ}
use where_token.Base.Int64.{add64}
use where_token.Base.Text.{Text, bytes}
use where_token.Event.{Quality, UsageEvent}
use where_token.Metric.Sum.{sat_add}
use where_token.Metric.Merge.{quality_rank, merge_by_request}

-- `price.Charge`; `ok` says that every part has a price
pub record Charge : Type 0 where
  pub ok : Bool
  pub micro : ℤ
  pub miss : ℤ
  pub cache_read : ℤ
  pub cache_create : ℤ
  pub output : ℤ

-- the Status constants of internal/price/price.go; `unset` is the empty string
pub data CostStatus : Type 0 where
  unset unavailable partial complete : CostStatus

-- `price.Status`
unfoldable pub status : ℤ → ℤ → CostStatus
status priced_tokens unpriced_tokens =
    if eqb_ℤ priced_tokens (pos 0) && eqb_ℤ unpriced_tokens (pos 0)
    then unavailable
    else if eqb_ℤ unpriced_tokens (pos 0)
    then complete
    else if eqb_ℤ priced_tokens (pos 0)
    then unavailable
    else partial

pub record Slice : Type 0 where
  pub id : Text
  pub miss : ℤ
  pub cache_read : ℤ
  pub cache_create : ℤ
  pub output : ℤ
  pub requests : ℤ
  pub user_turns : ℤ
  pub records : ℤ
  pub quality : Quality
  pub cost_micro : ℤ
  pub miss_cost_micro : ℤ
  pub cache_read_cost_micro : ℤ
  pub cache_create_cost_micro : ℤ
  pub output_cost_micro : ℤ
  pub priced_tokens : ℤ
  pub unpriced_tokens : ℤ
  pub cost_status : CostStatus

-- `Slice{ID: id}`
abbrev pub new_slice : Text → Slice
new_slice id = record {
  id = id;
  miss = pos 0;
  cache_read = pos 0;
  cache_create = pos 0;
  output = pos 0;
  requests = pos 0;
  user_turns = pos 0;
  records = pos 0;
  quality = Quality.other [];
  cost_micro = pos 0;
  miss_cost_micro = pos 0;
  cache_read_cost_micro = pos 0;
  cache_create_cost_micro = pos 0;
  output_cost_micro = pos 0;
  priced_tokens = pos 0;
  unpriced_tokens = pos 0;
  cost_status = unset;
}

-- `Slice.Total`
unfoldable pub total : Slice → ℤ
total s = sat_add (sat_add s.miss s.cache_read) (sat_add s.cache_create s.output)

-- `toks`
unfoldable pub tokens : UsageEvent → ℤ
tokens e = sat_add (sat_add e.miss e.cache_read) (sat_add e.cache_create e.output)

-- the tokens, requests and quality that `addSlice` adds
unfoldable pub add_tokens : Slice → UsageEvent → Slice
add_tokens s e = record s {
  miss = sat_add s.miss e.miss;
  cache_read = sat_add s.cache_read e.cache_read;
  cache_create = sat_add s.cache_create e.cache_create;
  output = sat_add s.output e.output;
  requests = if e.skip_request then s.requests else add64 s.requests (pos 1);
  quality = if ltb (quality_rank s.quality) (quality_rank e.quality) then e.quality else s.quality;
}

unfoldable pub add_slice : Slice → UsageEvent → Charge → Slice
add_slice s e ch =
    let t = add_tokens s e in
    if ch.ok
    then record t {
      cost_micro = sat_add s.cost_micro ch.micro;
      miss_cost_micro = sat_add s.miss_cost_micro ch.miss;
      cache_read_cost_micro = sat_add s.cache_read_cost_micro ch.cache_read;
      cache_create_cost_micro = sat_add s.cache_create_cost_micro ch.cache_create;
      output_cost_micro = sat_add s.output_cost_micro ch.output;
      priced_tokens = sat_add s.priced_tokens (tokens e);
    }
    else if ltb_ℤ (pos 0) (tokens e)
    then record t { unpriced_tokens = sat_add s.unpriced_tokens (tokens e) }
    else t

unfoldable pub finish_cost : Slice → Slice
finish_cost s = record s { cost_status = status s.priced_tokens s.unpriced_tokens }

module _ (charge : UsageEvent → Charge) where
  -- the loop of `CostSlice`; `charge` is `price.Event`
  unfoldable pub add_all : Slice → List UsageEvent → Slice
  add_all s [] = s
  add_all s (e ∷ events) = add_all (add_slice s e (charge e)) events

  unfoldable pub cost_slice : List UsageEvent → Slice
  cost_slice events = finish_cost (add_all (new_slice (bytes "all")) (merge_by_request events))
