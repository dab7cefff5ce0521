-- ===== src/Metric/Merge.antt =====
-- `mergeByRequest` of internal/metric/summary.go: the rows of one request become one event.
pub mod Laws
pub mod Peak
use where_token.Base.{
  ℕ, zero, suc, Bool, true, false, not, ◌&&◌, ◌||◌, Option, none, some, List, [], ◌∷◌, ◌++◌,
  if◌then◌else◌, ltb, length,
}
use where_token.Base.Int.{ℤ, pos, ltb_ℤ, leb_ℤ, eqb_ℤ, max_ℤ}
use where_token.Base.Text.{Text, is_empty}
use where_token.Base.Dict.{Dict, get, put}
use where_token.Event.{Quality, Time, zero_time, UsageEvent}

unfoldable pub usable_tokens : UsageEvent → Bool
usable_tokens e =
    leb_ℤ (pos 0) e.miss
    && leb_ℤ (pos 0) e.cache_read
    && leb_ℤ (pos 0) e.cache_create
    && leb_ℤ (pos 0) e.output

unfoldable pub quality_rank : Quality → ℕ
quality_rank Quality.degraded = 3
quality_rank Quality.estimated = 2
quality_rank Quality.authoritative = 1
quality_rank _ = 0

-- the timestamp of `maxEvent`
abbrev pub max_time : Time → Time → Time
max_time a b = if eqb_ℤ a zero_time || (not (eqb_ℤ b zero_time) && ltb_ℤ a b) then b else a

unfoldable pub max_event : UsageEvent → UsageEvent → UsageEvent
max_event a b = record a {
  miss = max_ℤ a.miss b.miss;
  cache_read = max_ℤ a.cache_read b.cache_read;
  cache_create = max_ℤ a.cache_create b.cache_create;
  output = max_ℤ a.output b.output;
  reasoning = max_ℤ a.reasoning b.reasoning;
  quality = if ltb (quality_rank a.quality) (quality_rank b.quality) then b.quality else a.quality;
  timestamp = max_time a.timestamp b.timestamp;
}

-- `out[i] = maxEvent(out[i], e)`; an index past the end, which `index` never has, changes nothing
unfoldable pub raise_at : ℕ → UsageEvent → List UsageEvent → List UsageEvent
raise_at i e [] = []
raise_at zero e (m ∷ out) = max_event m e ∷ out
raise_at (suc i) e (m ∷ out) = m ∷ raise_at i e out

unfoldable pub merge_key : UsageEvent → Text
merge_key e = e.source ++ (0 ∷ e.request_id)

-- `out` and `index`
abbrev pub Merged : Type 0
Merged = List UsageEvent × Dict ℕ

abbrev pub merge_keyed : Merged → UsageEvent → Option ℕ → Merged
merge_keyed (out, index) e (some i) = (raise_at i e out, index)
merge_keyed (out, index) e none = (out ++ (e ∷ []), put (merge_key e) (length out) index)

-- one turn of the loop
unfoldable pub merge_event : Merged → UsageEvent → Merged
merge_event (out, index) e =
    if not (usable_tokens e)
    then (out, index)
    else if is_empty e.request_id
    then (out ++ (e ∷ []), index)
    else merge_keyed (out, index) e (get (merge_key e) index)

unfoldable pub merge_from : Merged → List UsageEvent → Merged
merge_from m [] = m
merge_from m (e ∷ events) = merge_from (merge_event m e) events

unfoldable pub merge_by_request : List UsageEvent → List UsageEvent
merge_by_request events = (merge_from ([], []) events).0
