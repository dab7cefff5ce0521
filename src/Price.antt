-- ===== src/Price.antt =====
-- internal/price/price.go: the list price of an event. `Price` is the type of the rates in dollars
-- for a million tokens (float64), `is_positive` tells whether a rate is above zero, and `scale` is
-- the product of a positive count with a positive rate, cut to an integer.
pub mod Model
pub mod Best
pub mod Memo
use where_token.Base.{
  ℕ, ◌+◌, ◌-◌, ◌/◌, Bool, true, false, not, ◌&&◌, ◌||◌, ◌==◌, Option, none, some, List, [], ◌∷◌,
  ◌++◌, if◌then◌else◌, ltb, length, map,
}
use where_token.Base.Int.{ℤ, pos, negsuc, ltb_ℤ, eqb_ℤ}
use where_token.Base.Int64.{add64}
use where_token.Base.Text.{Text, bytes, text_eq, trim_space}
use where_token.Base.Decimal.{format_int}
use where_token.Base.Dict.{Dict, get, put}
use where_token.Event.{Time, UsageEvent}
use where_token.Event.Clock.{is_zero_time}
use where_token.Metric.Slice.{Charge}
use Model.{canonical, normalize, match_model, to_lower}

-- `Rate`, without the id of its source
pub record Rate (Price : Type 0) : Type 0 where
  pub vendor : Text
  pub model : Text
  pub miss : Price
  pub cache_read : Price
  pub cache_create : Price
  pub output : Price
  pub from : Time
  pub to : Time
  pub version : Text
  pub create_free : Bool

-- what `Resolve` is asked
pub record Query : Type 0 where
  pub vendor : Text
  pub model : Text
  pub at : Time

-- minus a number of seconds in whole days, towards zero
abbrev days_back : ℕ → ℤ
days_back s = if s / 86400 == 0 then pos 0 else negsuc (s / 86400 - 1)

-- t.Unix() / 86400; Unix rounds down
abbrev unix_day : Time → ℤ
unix_day (pos n) = pos (n / 1000000000 / 86400)
unix_day (negsuc n) = days_back (n / 1000000000 + 1)

-- `day` of `Resolve`
unfoldable pub day_key : Time → ℤ
day_key t = if is_zero_time t then negsuc 0 else unix_day t

-- the key of `resolveMemo`
unfoldable pub memo_key : Text → Text → Time → Text
memo_key vendor norm at = vendor ++ (b'|' ∷ norm ++ (b'|' ∷ format_int (day_key at)))

-- `resolveMemo`
abbrev pub Memo : Type 0 → Type 0
Memo Price = Dict (Option (Rate Price))

module _ {Price : Type 0} where
  -- `Rate.Contains`
  unfoldable pub contains : Rate Price → Time → Bool
  contains r t =
      if not (is_zero_time r.from) && ltb_ℤ t r.from
      then false
      else if not (is_zero_time r.to) && not (ltb_ℤ t r.to)
      then false
      else true

  -- `moreSpecific`
  unfoldable pub more_specific : Rate Price → Rate Price → Bool
  more_specific a b =
      if not (length a.model == length b.model)
      then ltb (length b.model) (length a.model)
      else if eqb_ℤ a.from b.from
      then false
      else ltb_ℤ b.from a.from

  -- the rows that the loop of `Lookup` does not pass over
  unfoldable pub is_card : Text → Text → Time → Rate Price → Bool
  is_card vendor canon at r =
      if not (text_eq r.vendor vendor) && not (text_eq r.vendor (bytes "*"))
      then false
      else if not (match_model canon r.model)
      then false
      else if not (is_zero_time at) && not (contains r at)
      then false
      else not (is_zero_time at && not (is_zero_time r.to))

  unfoldable pub better : Rate Price → Option (Rate Price) → Option (Rate Price)
  better r none = some r
  better r (some best) = if more_specific r best then some r else some best

  unfoldable pub lookup_from :
      Option (Rate Price) → Text → Text → Time → List (Rate Price) → Option (Rate Price)
  lookup_from best vendor canon at [] = best
  lookup_from best vendor canon at (r ∷ table) =
      lookup_from (if is_card vendor canon at r then better r best else best) vendor canon at table

  -- `Lookup`, in a table
  unfoldable pub lookup : List (Rate Price) → Text → Text → Time → Option (Rate Price)
  lookup table vendor model at =
      lookup_from none (to_lower (trim_space vendor)) (canonical model) at table

  abbrev resolved :
      Text
      → Text
      → Option (Rate Price)
      → Memo Price
      → Option (Option (Rate Price))
      → (Option (Rate Price) × Text) × Memo Price
  resolved key norm fresh memo none = ((fresh, norm), put key fresh memo)
  resolved key norm fresh memo (some hit) = ((hit, norm), memo)

  -- `Resolve`: the card, the normalized id, and the memo after the call
  unfoldable pub resolve :
      List (Rate Price) → Query → Memo Price → (Option (Rate Price) × Text) × Memo Price
  resolve table q memo =
      let norm = normalize q.model in
      let key = memo_key q.vendor norm q.at in
      resolved key norm (lookup table q.vendor norm q.at) memo (get key memo)

  -- calls of `Resolve`, one after the other
  unfoldable pub resolve_all :
      List (Rate Price) → List Query → Memo Price → List (Option (Rate Price) × Text)
  resolve_all table [] memo = []
  resolve_all table (q ∷ queries) memo =
      let (answer, memo') = resolve table q memo in answer ∷ resolve_all table queries memo'

module _ {Price : Type 0} (is_positive : Price → Bool) (scale : ℤ → Price → ℤ) where
  -- `Micro`
  unfoldable pub micro : ℤ → Price → ℤ
  micro tokens usd = if ltb_ℤ (pos 0) tokens && is_positive usd then scale tokens usd else pos 0

  -- `unpricedComponent`
  unfoldable pub unpriced_component : UsageEvent → Rate Price → Bool
  unpriced_component e r =
      (ltb_ℤ (pos 0) e.miss && not (is_positive r.miss))
      || (ltb_ℤ (pos 0) e.cache_read && not (is_positive r.cache_read))
      || (ltb_ℤ (pos 0) e.cache_create && not (is_positive r.cache_create) && not r.create_free)
      || (ltb_ℤ (pos 0) e.output && not (is_positive r.output))

  abbrev pub no_charge : Charge
  no_charge = record {
    ok = false;
    micro = pos 0;
    miss = pos 0;
    cache_read = pos 0;
    cache_create = pos 0;
    output = pos 0;
  }

  unfoldable pub charge_with : UsageEvent → Rate Price → Charge
  charge_with e r =
      let miss = micro e.miss r.miss in
      let cache_read = micro e.cache_read r.cache_read in
      let cache_create = micro e.cache_create r.cache_create in
      let output = micro e.output r.output in
      if unpriced_component e r then no_charge else record {
        ok = true;
        micro = add64 (add64 (add64 miss cache_read) cache_create) output;
        miss = miss;
        cache_read = cache_read;
        cache_create = cache_create;
        output = output;
      }

  abbrev pub charge_or_none : UsageEvent → Option (Rate Price) → Charge
  charge_or_none e none = no_charge
  charge_or_none e (some r) = charge_with e r

  -- `price.Event`
  unfoldable pub charge : List (Rate Price) → UsageEvent → Charge
  charge table e = charge_or_none e (lookup table e.vendor (normalize e.model) e.timestamp)
