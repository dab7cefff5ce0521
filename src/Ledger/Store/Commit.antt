-- ===== src/Ledger/Store/Commit.antt =====
-- What committing a scan does to the facts.
pub mod Growth
pub mod Cover
use where_token.Base.{
  ℕ, ◌≡◌, refl, ◌⊎◌, inl, inr, Bool, true, false, Option, none, some, List, [], ◌∷◌, arith,
  if◌then◌else◌, ◌∙◌, Bool-cases, Option-cases,
}
use where_token.Base.Int.{ℤ, pos, ◌≤ℤ◌, ltb_ℤ, max_ℤ, max_ℤ-left, max_ℤ_of_le, max_ℤ_idem}
use where_token.Base.Text.{Text, bytes, text_eq, text_eq_iff, text_eq_self}
use where_token.Base.Dict.{Dict, get, put, get-put}
use where_token.Event.{UsageEvent}
use where_token.Ledger.Key.{key}
use where_token.Ledger.Fact.{Fact, fact_from, max_fact, superset, lower_somewhere, rehash}
use where_token.Ledger.Store.Tables.{
  Row, Ledger, find, insert, update, find-update, find-insert, changed,
}
use where_token.Ledger.Store.{
  new_row, reduce_keyed, reduce_event, reduce_from, reduce, raise_row, upsert_fact, upsert_facts,
  commit_usage,
}

-- Each fact of the map stands under its own identity, once.
abbrev pub IsKeyed : Dict Fact → Type 0
IsKeyed [] = Unit
IsKeyed ((id, f) ∷ facts) = (f.id ≡ id) × (get id facts ≡ none) × IsKeyed facts

put-IsKeyed :
    (id : Text) (f : Fact) (facts : Dict Fact)
    → f.id ≡ id
    → IsKeyed facts
    → IsKeyed (put id f facts)
unfolding put get
put-IsKeyed id f [] e h = (e, refl, tt)
put-IsKeyed id f ((j, g) ∷ facts) e h =
    ground (
      arith,
      text_eq_iff j id,
      text_eq_iff id j,
      put-IsKeyed id f facts e h.2,
      get-put id j f facts,
    )

module _ (sha256_hex : Text → Text) where
  fact_from-id : (e : UsageEvent) (id : Text) → (fact_from sha256_hex e id).id ≡ id
  unfolding fact_from
  fact_from-id e id = refl

  reduce_keyed-IsKeyed :
      (out : Dict Fact) (e : UsageEvent) (id : Text)
      → IsKeyed out
      → ((f : Fact) → get id out ≡ some f → f.id ≡ id)
      → IsKeyed (reduce_keyed sha256_hex out e id)
  unfolding reduce_keyed
  reduce_keyed-IsKeyed out e id h ids = elim (Option-cases (get id out)) [
    | inl new ↦ rw new (put-IsKeyed id _ out (fact_from-id e id) h)
    | inr (f, old) ↦ rw old (put-IsKeyed id _ out (unfold max_fact in ids f old) h)
  ]

  get-IsKeyed :
      (out : Dict Fact) (id : Text) → IsKeyed out → (f : Fact) → get id out ≡ some f → f.id ≡ id
  unfolding get
  get-IsKeyed [] id h f e = cc
  get-IsKeyed ((j, g) ∷ out) id h f e = ground (arith, text_eq_iff j id, get-IsKeyed out id h.2 f)

  reduce_event-IsKeyed :
      (acc : Dict Fact × ℕ) (e : UsageEvent)
      → IsKeyed acc.0
      → IsKeyed (reduce_event sha256_hex acc e).0
  unfolding reduce_event
  reduce_event-IsKeyed (out, n) e h = elim (Option-cases (key e)) [
    | inl unkeyed ↦ ground arith
    | inr (id, keyed) ↦
        ground (arith, keyed, reduce_keyed-IsKeyed out e id h (get-IsKeyed out id h))
  ]

  reduce_from-IsKeyed :
      (acc : Dict Fact × ℕ) (events : List UsageEvent)
      → IsKeyed acc.0
      → IsKeyed (reduce_from sha256_hex acc events).0
  unfolding reduce_from
  reduce_from-IsKeyed acc [] h = h
  reduce_from-IsKeyed acc (e ∷ events) h =
      reduce_from-IsKeyed (reduce_event sha256_hex acc e) events (reduce_event-IsKeyed acc e h)

  pub reduce-IsKeyed : (events : List UsageEvent) → IsKeyed (reduce sha256_hex events).0
  unfolding reduce
  reduce-IsKeyed events = reduce_from-IsKeyed ([], 0) events tt

  -- What committing one observation, or none, makes of the row with its identity.
  pub absorb : Text → Option Fact → Option Row → Option Row
  absorb origin none r = r
  absorb origin (some f) none = some (new_row origin f)
  absorb origin (some f) (some cur) =
      if superset f cur.fact then some (raise_row sha256_hex f cur) else some cur

  raise_row-id : (f : Fact) (r : Row) → (raise_row sha256_hex f r).fact.id ≡ r.fact.id
  unfolding raise_row
  raise_row-id f r = refl

  find-upsert_fact :
      (origin : Text) (f : Fact) (rows : List Row) (j : Text)
      → find j (upsert_fact sha256_hex origin f rows)
        ≡ (if text_eq f.id j then absorb origin (some f) (find j rows) else find j rows)
  unfolding upsert_fact absorb
  find-upsert_fact origin f rows j = elim (Option-cases (find f.id rows)) [
    | inl new ↦
        rw (new, upsert_fact)
          (ground (arith, new, text_eq_iff f.id j, find-insert (new_row origin f) j rows new))
    | inr (cur, old) ↦
        rw (old, upsert_fact)
          (ground (
            arith,
            old,
            text_eq_iff f.id j,
            find-update f.id j (raise_row sha256_hex f) rows (raise_row-id f),
          ))
  ]

  -- Each identity absorbs the observation that stands under it, whatever the order of the map.
  pub find-upsert_facts :
      (origin : Text) (facts : Dict Fact) (rows : List Row) (j : Text)
      → IsKeyed facts
      → find j (upsert_facts sha256_hex origin facts rows)
        ≡ absorb origin (get j facts) (find j rows)
  unfolding upsert_facts get absorb
  find-upsert_facts origin [] rows j h = refl
  find-upsert_facts origin ((id, f) ∷ facts) rows j h = ground (
    arith,
    h.0,
    h.1,
    text_eq_iff id j,
    text_eq_iff f.id j,
    find-upsert_fact origin f rows j,
    find-upsert_facts origin facts (upsert_fact sha256_hex origin f rows) j h.2,
  )
