-- ===== src/Price/Memo.antt =====
-- Resolve answers from its memo what Lookup would answer.
pub mod Keys
use where_token.Base.{
  ◌≡◌, refl, sym, ap, ◌∙◌, ◌⊎◌, inl, inr, Bool, false, Option, none, some, List, [], ◌∷◌, ◌++◌,
  arith, if◌then◌else◌, Bool-cases, Option-cases, ℕ, ◌*◌, ◌/◌, ◌^◌, ◌<◌, All, any_of, map, ◌==◌,
}
use mathlib.Core.Option.{some-injective}
use where_token.Base.Int.{pos, ltb_ℤ}
use where_token.Base.Int64.{Fits}
use where_token.Base.Text.{Text, text_eq, text_eq_iff, trim_space}
use where_token.Base.Decimal.{format_int, parse_int, parse_int-format_int}
use where_token.Base.Dict.{get, put, get-put}
use where_token.Event.{Time, zero_time}
use where_token.Event.Clock.{is_zero_time}
use where_token.Price.Model.{canonical, to_lower, normalize}
use where_token.Price.{
  Rate, Query, contains, is_card, better, lookup_from, lookup, day_key, memo_key, Memo, resolve,
  resolve_all,
}
use Keys.{
  IsMidnight, IsDated, IsAligned, IsPlain, has_bar, memo_key-injective, same_day, midnight_same,
}

module _ {Price : Type 0} where
  is_card_same :
      (vendor canon : Text) (m n : ℕ) (r : Rate Price)
      → IsAligned r
      → m / 1000000000 / 86400 ≡ n / 1000000000 / 86400
      → is_card vendor canon (pos m) r ≡ is_card vendor canon (pos n) r
  unfolding is_card contains is_zero_time
  is_card_same vendor canon m n r (from, to) e =
      ground (arith, midnight_same m n r.from from e, midnight_same m n r.to to e)

  lookup_from_same :
      (best : Option (Rate Price)) (vendor canon : Text) (m n : ℕ) (table : List (Rate Price))
      → All IsAligned table
      → m / 1000000000 / 86400 ≡ n / 1000000000 / 86400
      → lookup_from best vendor canon (pos m) table ≡ lookup_from best vendor canon (pos n) table
  unfolding lookup_from
  lookup_from_same best vendor canon m n [] h e = refl
  lookup_from_same best vendor canon m n (r ∷ table) (h, hs) e =
      rw (is_card_same vendor canon m n r h e) (
        lookup_from_same (if is_card vendor canon (pos n) r then better r best else best) vendor
          canon m n table hs e)

  lookup_same :
      (table : List (Rate Price)) (vendor model : Text) (t u : Time)
      → All IsAligned table
      → IsDated t
      → IsDated u
      → day_key t ≡ day_key u
      → lookup table vendor model t ≡ lookup table vendor model u
  unfolding lookup
  lookup_same table vendor model t u aligned dt du e = elim (same_day t u dt du e) [
    | inl same ↦ rw same refl
    | inr (m, n, f, g, day) ↦
        rw (f, g)
          (lookup_from_same none (to_lower (trim_space vendor)) (canonical model) m n table aligned
            day)
  ]

  -- what stands in the memo is what Lookup gives
  abbrev IsSound : List (Rate Price) → Memo Price → Type 0
  IsSound table memo =
      (vendor norm : Text) (at : Time) (hit : Option (Rate Price))
      → has_bar vendor ≡ false
      → has_bar norm ≡ false
      → IsDated at
      → get (memo_key vendor norm at) memo ≡ some hit
      → hit ≡ lookup table vendor norm at

  put-IsSound :
      (table : List (Rate Price)) (v x : Text) (t : Time) (memo : Memo Price)
      → All IsAligned table
      → has_bar v ≡ false
      → has_bar x ≡ false
      → IsDated t
      → IsSound table memo
      → IsSound table (put (memo_key v x t) (lookup table v x t) memo)
  put-IsSound table v x t memo aligned hv hx dt sound w y u hit hw hy du e =
      let key = memo_key v x t in
      let now = sym (get-put key (memo_key w y u) (lookup table v x t) memo) ∙ e in
      elim (Bool-cases (text_eq key (memo_key w y u))) [
        | inl same ↦
            let (f, g, day) =
              memo_key-injective v w x y t u hv hw hx hy dt du
                ((text_eq_iff key (memo_key w y u)).0 same) in
            sym (some-injective _ _ (rw (sym now, same) refl))
            ∙ lookup_same table v x t u aligned dt du day
            ∙ rw (f, g) refl
        | inr away ↦ sound w y u hit hw hy du (rw (sym now, away) refl)
      ]

  resolve-cases :
      (table : List (Rate Price)) (q : Query) (memo : Memo Price)
      → let norm = normalize q.model in
        let key = memo_key q.vendor norm q.at in
        let card = lookup table q.vendor norm q.at in
        (resolve table q memo ≡ ((card, norm), put key card memo))
        ⊎ ((hit : Option (Rate Price)) × (get key memo ≡ some hit)
            × (resolve table q memo ≡ ((hit, norm), memo)))
  unfolding resolve
  resolve-cases table q memo =
      elim (Option-cases (get (memo_key q.vendor (normalize q.model) q.at) memo)) [
        | inl missing ↦ inl (rw missing refl)
        | inr (hit, there) ↦ inr (hit, there, rw there refl)
      ]

  -- the answers without a memo
  abbrev pub direct : List (Rate Price) → Query → Option (Rate Price) × Text
  direct table q = (lookup table q.vendor (normalize q.model) q.at, normalize q.model)

  resolve_all_sound :
      (table : List (Rate Price)) (queries : List Query) (memo : Memo Price)
      → All IsAligned table
      → All IsPlain queries
      → IsSound table memo
      → resolve_all table queries memo ≡ map (direct table) queries
  unfolding resolve_all
  resolve_all_sound table [] memo aligned plain sound = refl
  resolve_all_sound table (q ∷ queries) memo aligned ((hv, hx, dt), plain) sound =
      let norm = normalize q.model in
      elim (resolve-cases table q memo) [
        | inl e ↦ rw e (
            ap (λ answers. direct table q ∷ answers)
              (resolve_all_sound table queries _ aligned plain
                (put-IsSound table q.vendor norm q.at memo aligned hv hx dt sound)))
        | inr (hit, there, e) ↦
            rw (e, sound q.vendor norm q.at hit hv hx dt there)
              (ap (λ answers. direct table q ∷ answers)
                (resolve_all_sound table queries memo aligned plain sound))
      ]

  -- Any sequence of calls of Resolve from an empty memo gives what Lookup gives for each call by
  -- itself. Each row of the table must start and end at a midnight of UTC or be open there, and each
  -- call must name a vendor and a normalized model without a bar, and a time from 1970 on that fits
  -- int64 nanoseconds, or none.
  pub resolve_all-direct :
      (table : List (Rate Price)) (queries : List Query)
      → All IsAligned table
      → All IsPlain queries
      → resolve_all table queries [] ≡ map (direct table) queries
  unfolding get
  resolve_all-direct table queries aligned plain =
      resolve_all_sound table queries [] aligned plain (λ w y u hit hw hy du e. cc)
