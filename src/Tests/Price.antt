-- ===== src/Tests/Price.antt =====
-- The lookup of prices and the axes of the totals at concrete inputs.
use where_token.Base.{
  ◌≡◌, refl, ◌⊎◌, inl, inr, ◌↔◌, true, false, none, some, List, [], ◌∷◌, any_of, map, ℕ, ◌==◌,
  arith, select,
}
use where_token.Base.Int.{ℤ, pos, ltb_ℤ}
use where_token.Base.Text.{
  Text, bytes, text_eq, has_prefix, last_index, trim_space, trim_left, trim_right,
}
use where_token.Base.Dict.{get, member}
use where_token.Event.{Time, zero_time, UsageEvent, TurnEvent}
use where_token.Event.Clock.{is_zero_time}
use where_token.Price.{Rate, Query, contains, more_specific, is_card, lookup, resolve_all, charge}
use where_token.Price.Model.{
  canonical, normalize, match_model, match_from, index_of, left_boundary_ok, right_boundary_ok,
  fold_version_dots, fold_after, split_on, is_number, version_token, family_of, version_in,
  take_text, drop_effort, claude_id, to_lower,
}
use where_token.Price.Model.Match.{OccursAt, match_model-OccursAt}
use where_token.Price.Best.{IsRow, lookup-best}
use where_token.Price.Memo.{direct, resolve_all-direct}
use where_token.Metric.Slice.{Charge, new_slice}
use where_token.Metric.Axes.{axes, add_model, new_cross, new_model, model_key, pair_key}
use where_token.Metric.Axes.Groups.{
  gathered, merged_with, adds, records, crosses, turns_up, axes-gathered,
}
use where_token.Tests.Data.{request}

-- 2024-01-01, the first day of every card
abbrev new_year : Time
new_year = pos 1704067200000000000

-- a card whose prices are whole cents
abbrev card : Text → ℤ → Rate ℤ
card model price = record {
  vendor = bytes "openai";
  model = model;
  miss = price;
  cache_read = price;
  cache_create = price;
  output = price;
  from = new_year;
  to = zero_time;
  version = bytes "2026-08-19";
  create_free = false;
}

abbrev cards : List (Rate ℤ)
cards =
    card (bytes "gpt-5") (pos 100)
    ∷ card (bytes "gpt-5.4-mini") (pos 40)
    ∷ card (bytes "m") (pos 7)
    ∷ []

dropped_effort : normalize (bytes "GPT-5-high") ≡ bytes "gpt-5"
unfolding normalize canonical trim_space trim_left trim_right last_index fold_version_dots
    fold_after split_on claude_id text_eq family_of version_in drop_effort take_text any_of member
dropped_effort = refl

family_first : normalize (bytes "claude-4.6-opus-high-thinking") ≡ bytes "claude-opus-4.6"
unfolding normalize canonical trim_space trim_left trim_right last_index fold_version_dots
    fold_after split_on claude_id text_eq family_of version_in version_token is_number any_of member
family_first = refl

-- a longer version is another model
not_inside : match_model (bytes "grok-4-fast") (bytes "grok-4") ≡ false
unfolding match_model match_from index_of has_prefix left_boundary_ok right_boundary_ok text_eq
    any_of
not_inside = refl

inside : match_model (bytes "xai-grok-4") (bytes "grok-4") ≡ true
unfolding match_model match_from index_of has_prefix left_boundary_ok right_boundary_ok text_eq
    any_of
inside = refl

match_model-OccursAt_example : (match_model (bytes "xai-grok-4") (bytes "grok-4") ≡ true) ↔ (
    (bytes "grok-4" ≡ bytes "*")
    ⊎ (bytes "xai-grok-4" ≡ bytes "grok-4")
    ⊎ ((at : ℕ) × OccursAt (bytes "xai-grok-4") (bytes "grok-4") at))
match_model-OccursAt_example = match_model-OccursAt (bytes "xai-grok-4") (bytes "grok-4")

gpt_is_card :
    is_card
      (to_lower (trim_space (bytes "OpenAI")))
      (canonical (bytes "gpt-5"))
      new_year
      (card (bytes "gpt-5") (pos 100))
    ≡ true
unfolding is_card contains match_model match_from index_of has_prefix left_boundary_ok
    right_boundary_ok text_eq any_of canonical trim_space trim_left trim_right last_index
    fold_version_dots fold_after is_zero_time
gpt_is_card = refl

lookup-best_example :
    (r : Rate ℤ) × (lookup cards (bytes "OpenAI") (bytes "gpt-5") new_year ≡ some r)
    × IsRow (to_lower (trim_space (bytes "OpenAI"))) (canonical (bytes "gpt-5")) new_year cards r
    × (more_specific (card (bytes "gpt-5") (pos 100)) r ≡ false)
lookup-best_example =
    lookup-best cards (bytes "OpenAI") (bytes "gpt-5") new_year 0 (card (bytes "gpt-5") (pos 100))
      refl gpt_is_card

-- two calls of one day, and one without a time
abbrev calls : List Query
calls =
    record { vendor = bytes "openai"; model = bytes "gpt-5"; at = pos 1704067200000000001 }
    ∷ record { vendor = bytes "openai"; model = bytes "gpt-5"; at = pos 1704067300000000000 }
    ∷ record { vendor = bytes "openai"; model = bytes "gpt-5"; at = zero_time }
    ∷ []

gpt_has_no_bar : any_of (λ c. c == b'|') (normalize (bytes "gpt-5")) ≡ false
unfolding normalize canonical trim_space trim_left trim_right last_index fold_version_dots
    fold_after split_on claude_id text_eq family_of version_in drop_effort take_text any_of member
gpt_has_no_bar = refl

openai_has_no_bar : any_of (λ c. c == b'|') (bytes "openai") ≡ false
unfolding any_of
openai_has_no_bar = refl

resolve_all-direct_example : resolve_all cards calls [] ≡ map (direct cards) calls
resolve_all-direct_example =
    resolve_all-direct cards calls
      (
        (inr (19723, refl), inl refl),
        ((inr (19723, refl), inl refl), ((inr (19723, refl), inl refl), tt)),
      )
      (
        (openai_has_no_bar, gpt_has_no_bar, inr (1704067200000000001, refl, omega arith)),
        (
          (openai_has_no_bar, gpt_has_no_bar, inr (1704067300000000000, refl, omega arith)),
          ((openai_has_no_bar, gpt_has_no_bar, inl refl), tt),
        ),
      )

-- cents instead of micro dollars
abbrev cents : UsageEvent → Charge
cents = charge (ltb_ℤ (pos 0)) (λ tokens price. price) cards

abbrev scan : List UsageEvent
scan = request (bytes "r1") (pos 130) ∷ request (bytes "r2") (pos 9) ∷ []

abbrev turns : List TurnEvent
turns =
    record { source = bytes "codex"; session_id = bytes "s1"; workspace = []; timestamp = pos 1 }
    ∷ []

axes-gathered_example :
    (get (bytes "codex") (axes cards cents scan turns).by_source
      ≡ gathered
          (λ t. new_slice t.source)
          turns_up
          (gathered
            (λ e. new_slice e.source)
            (records cards cents)
            none
            (merged_with cards cents (λ e. e.source) (bytes "codex") scan))
          (select (λ t. text_eq t.source (bytes "codex")) turns))
    × (get (bytes "codex") (axes cards cents scan turns).by_vendor
        ≡ gathered
            (λ e. new_slice e.vendor)
            (adds cards cents)
            none
            (merged_with cards cents (λ e. e.vendor) (bytes "codex") scan))
    × (get (bytes "codex") (axes cards cents scan turns).by_cross
        ≡ gathered new_cross
            (crosses cards cents)
            none
            (merged_with cards cents (λ e. pair_key e.source e.vendor) (bytes "codex") scan))
    × (get (bytes "codex") (axes cards cents scan turns).by_model
        ≡ gathered
            (new_model cards cents)
            (add_model cards cents)
            none
            (merged_with cards cents (model_key cards cents) (bytes "codex") scan))
axes-gathered_example = axes-gathered cards cents scan turns (bytes "codex")
