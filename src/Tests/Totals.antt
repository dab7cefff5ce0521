-- ===== src/Tests/Totals.antt =====
-- The theorems on totals at concrete inputs.
use where_token.Metric.Merge.Peak.{merge_by_request-IsCovered, IsCovered}
use where_token.Fuzzy.Laws.{closest-least, distance-edits, onto, edits}
use where_token.Fuzzy.{last_of, min3, fill, first_row, closest, rows_from, distance}
use where_token.Base.Dict.{put, get}
use where_token.Base.{ℕ, get_elem?, some, true, ◌≤◌, false, arith, ◌≡◌, refl, List, [], ◌∷◌, All}
use where_token.Base.Int.{◌-ℤ◌, max_ℤ, pos, negsuc, ◌+ℤ◌}
use where_token.Base.Int64.{wrap64, sub64, add64}
use where_token.Base.Text.{is_empty, text_eq, bytes}
use where_token.Event.{UsageEvent}
use where_token.Metric.Sum.{sat_add, clamp}
use where_token.Metric.Merge.{
  usable_tokens, merge_key, max_event, raise_at, merge_event, merge_from, merge_by_request,
}
use where_token.Metric.Merge.Laws.{IsCounted}
use where_token.Metric.Slice.{
  tokens, add_tokens, add_slice, add_all, finish_cost, Charge, total, cost_slice,
}
use where_token.Metric.Slice.Laws.{exact, sum_by, cost_slice-total}
use where_token.Tests.Data.{request}

-- two rows of one request, a negative row, and another request
abbrev rows : List UsageEvent
rows =
    request (bytes "r1") (pos 10)
    ∷ request (bytes "r1") (pos 30)
    ∷ request (bytes "r2") (negsuc 4)
    ∷ request (bytes "r3") (pos 1)
    ∷ []

abbrev unpriced : UsageEvent → Charge
unpriced _ = record {
  ok = false;
  micro = pos 0;
  miss = pos 0;
  cache_read = pos 0;
  cache_create = pos 0;
  output = pos 0;
}

rows-IsCounted : All IsCounted rows
rows-IsCounted = (
  record {
    miss = omega arith;
    cache_read = omega arith;
    cache_create = omega arith;
    output = omega arith;
  },
  (
    record {
      miss = omega arith;
      cache_read = omega arith;
      cache_create = omega arith;
      output = omega arith;
    },
    (
      record {
        miss = omega arith;
        cache_read = omega arith;
        cache_create = omega arith;
        output = omega arith;
      },
      (
        record {
          miss = omega arith;
          cache_read = omega arith;
          cache_create = omega arith;
          output = omega arith;
        },
        tt,
      ),
    ),
  ),
)

cost_slice-total_example :
    total (cost_slice unpriced rows) ≡ clamp (sum_by exact (merge_by_request rows))
cost_slice-total_example = cost_slice-total unpriced rows rows-IsCounted

-- 42 tokens of the first request and 13 of the third
total-rows : total (cost_slice unpriced rows) ≡ pos 55
unfolding total cost_slice finish_cost add_all add_slice add_tokens tokens sat_add merge_by_request
    merge_from merge_event raise_at max_event merge_key usable_tokens get put text_eq max_ℤ add64
    sub64 wrap64 ◌+ℤ◌ ◌-ℤ◌
total-rows = refl

distance-edits_example :
    distance (bytes "codex") (bytes "codec")
    ≡ edits (onto (bytes "codex") []) (onto (bytes "codec") [])
distance-edits_example = distance-edits (bytes "codex") (bytes "codec")

near : distance (bytes "codx") (bytes "codex") ≤ 2
unfolding distance rows_from first_row fill min3 last_of
near = omega arith

closest-least_example :
    let names = bytes "grok" ∷ bytes "codex" ∷ [] in
    let best = closest (bytes "codx") names (pos 2) in
    ((j : ℕ) × (get_elem? names j ≡ some best) × (is_empty best ≡ false))
    × (distance (bytes "codx") best ≤ distance (bytes "codx") (bytes "codex"))
closest-least_example =
    closest-least (bytes "codx") (bytes "grok" ∷ bytes "codex" ∷ []) 2 1 (bytes "codex") refl refl
      refl near

row-usable : usable_tokens (request (bytes "r1") (pos 30)) ≡ true
unfolding usable_tokens
row-usable = refl

merge_by_request-IsCovered_example :
    IsCovered (merge_by_request rows) (request (bytes "r1") (pos 30))
merge_by_request-IsCovered_example =
    merge_by_request-IsCovered rows 1 (request (bytes "r1") (pos 30)) refl row-usable refl
