-- ===== src/Price/Best.antt =====
-- The row of the rate table that Lookup gives.
use where_token.Base.{
  ◌≡◌, refl, sym, ap, ◌⊎◌, true, false, Option, none, some, List, [], ◌∷◌, arith, if◌then◌else◌,
  inl, inr, Bool-cases, ℕ, zero, suc, get_elem?,
}
use mathlib.Core.Option.{some-injective}
use where_token.Base.Text.{Text, trim_space}
use where_token.Price.Model.{canonical, to_lower}
use where_token.Event.{Time}
use where_token.Price.{Rate, more_specific, is_card, better, lookup_from, lookup}

module _ {Price : Type 0} where
  more_specific_self : (a : Rate Price) → more_specific a a ≡ false
  unfolding more_specific
  more_specific_self a = ground arith

  -- a row that nothing beats is not beaten by what a better row beats
  more_specific_trans :
      (a b c : Rate Price)
      → more_specific a b ≡ false
      → more_specific b c ≡ false
      → more_specific a c ≡ false
  unfolding more_specific
  more_specific_trans a b c h k = ground arith

  more_specific_asym : (a b : Rate Price) → more_specific a b ≡ true → more_specific b a ≡ false
  unfolding more_specific
  more_specific_asym a b h = ground arith

  lookup_from-best :
      (best : Option (Rate Price)) (vendor canon : Text) (at : Time) (table : List (Rate Price))
      (b : Rate Price)
      → best ≡ some b
      → (r : Rate Price) × (lookup_from best vendor canon at table ≡ some r)
        × (more_specific b r ≡ false)
  unfolding lookup_from better
  lookup_from-best best vendor canon at [] b e = (b, e, more_specific_self b)
  lookup_from-best best vendor canon at (r ∷ table) b e =
      elim (Bool-cases (is_card vendor canon at r)) [
        | inl card ↦ elim (Bool-cases (more_specific r b)) [
          | inl more ↦
              let (w, f, k) = lookup_from-best (some r) vendor canon at table r refl in
              (
                w,
                rw (e, card, if◌then◌else◌, better, more) f,
                more_specific_trans b r w (more_specific_asym r b more) k,
              )
          | inr less ↦
              let (w, f, k) = lookup_from-best (some b) vendor canon at table b refl in
              (w, rw (e, card, if◌then◌else◌, better, less) f, k)
        ]
        | inr other ↦
            let (w, f, k) = lookup_from-best best vendor canon at table b e in
            (w, rw (other, if◌then◌else◌) f, k)
      ]

  better-some :
      (r : Rate Price) (best : Option (Rate Price))
      → (b : Rate Price) × (better r best ≡ some b) × (more_specific r b ≡ false)
  unfolding better
  better-some r none = (r, refl, more_specific_self r)
  better-some r (some best) = elim (Bool-cases (more_specific r best)) [
    | inl more ↦ (r, rw (more, if◌then◌else◌) refl, more_specific_self r)
    | inr less ↦ (best, rw (less, if◌then◌else◌) refl, less)
  ]

  lookup_from-at :
      (best : Option (Rate Price)) (vendor canon : Text) (at : Time) (table : List (Rate Price))
      (n : ℕ) (card : Rate Price)
      → get_elem? table n ≡ some card
      → is_card vendor canon at card ≡ true
      → (r : Rate Price) × (lookup_from best vendor canon at table ≡ some r)
        × (more_specific card r ≡ false)
  unfolding lookup_from
  lookup_from-at best vendor canon at [] n card e h = cc
  lookup_from-at best vendor canon at (r ∷ table) zero card e h =
      let same : r ≡ card = some-injective r card e in
      let (b, f, k) = better-some card best in
      let (w, g, l) = lookup_from-best (some b) vendor canon at table b refl in
      (w, rw (same, h, if◌then◌else◌, f) g, more_specific_trans card b w k l)
  lookup_from-at best vendor canon at (r ∷ table) (suc n) card e h =
      lookup_from-at (if is_card vendor canon at r then better r best else best) vendor canon at
        table n card e h

  -- a row of the table that the loop does not pass over
  abbrev pub IsRow : Text → Text → Time → List (Rate Price) → Rate Price → Type 0
  IsRow vendor canon at table r =
      (m : ℕ) × (get_elem? table m ≡ some r) × (is_card vendor canon at r ≡ true)

  better-cases :
      (r : Rate Price) (best : Option (Rate Price)) (b : Rate Price)
      → better r best ≡ some b
      → (r ≡ b) ⊎ (best ≡ some b)
  unfolding better
  better-cases r none b e = inl (some-injective r b e)
  better-cases r (some best) b e = elim (Bool-cases (more_specific r best)) [
    | inl more ↦ inl (ground arith)
    | inr less ↦ inr (ground arith)
  ]

  lookup_from-IsRow :
      (best : Option (Rate Price)) (vendor canon : Text) (at : Time) (table : List (Rate Price))
      (r : Rate Price)
      → lookup_from best vendor canon at table ≡ some r
      → (best ≡ some r) ⊎ IsRow vendor canon at table r
  unfolding lookup_from
  lookup_from-IsRow best vendor canon at [] r e = inl e
  lookup_from-IsRow best vendor canon at (q ∷ table) r e =
      elim (lookup_from-IsRow (if is_card vendor canon at q then better q best else best) vendor
        canon at table r e) [
          | inr (m, there, card) ↦ inr (suc m, there, card)
          | inl kept ↦ elim (Bool-cases (is_card vendor canon at q)) [
            | inl card ↦ elim (better-cases q best r (rw (sym kept, card) refl)) [
              | inl same ↦ inr (0, ap some same, rw (sym same) card)
              | inr old ↦ inl old
            ]
            | inr other ↦ inl (rw (sym kept, other) refl)
          ]
        ]

  -- Where some row of the table matches the vendor, the id and the time of an event, Lookup gives a
  -- row of the table that matches too, and no matching row is more specific than it.
  pub lookup-best :
      (table : List (Rate Price)) (vendor model : Text) (at : Time) (n : ℕ) (card : Rate Price)
      → get_elem? table n ≡ some card
      → is_card (to_lower (trim_space vendor)) (canonical model) at card ≡ true
      → (r : Rate Price) × (lookup table vendor model at ≡ some r)
        × IsRow (to_lower (trim_space vendor)) (canonical model) at table r
        × (more_specific card r ≡ false)
  unfolding lookup
  lookup-best table vendor model at n card e h =
      let vend = to_lower (trim_space vendor) in
      let canon = canonical model in
      let (r, found, least) = lookup_from-at none vend canon at table n card e h in
      elim (lookup_from-IsRow none vend canon at table r found) [
        | inl absent ↦ cc
        | inr row ↦ (r, found, row, least)
      ]
