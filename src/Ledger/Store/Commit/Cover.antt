-- ===== src/Ledger/Store/Commit/Cover.antt =====
-- A committed scan covers every event that it emitted with an identity.
use where_token.Base.{
  ℕ, ◌≡◌, inl, inr, false, none, some, List, [], ◌∷◌, arith, Bool-cases, Option-cases, All,
  get_elem?, All-get_elem?,
}
use where_token.Base.Int.{◌≤ℤ◌}
use where_token.Base.Text.{Text, bytes, text_eq, text_eq_iff, text_eq_self}
use where_token.Base.Dict.{Dict, get, get-put}
use where_token.Event.{UsageEvent}
use where_token.Ledger.Key.{key}
use where_token.Ledger.Fact.{Fact, fact_from, max_fact}
use where_token.Ledger.Store.Tables.{Row, Ledger, find}
use where_token.Ledger.Store.{
  counts_nothing, new_row, reduce_keyed, reduce_event, reduce_from, reduce, commit_usage,
}
use where_token.Ledger.Store.Commit.{absorb}
use where_token.Ledger.Store.Commit.Growth.{
  AtMost, AtMost-refl, AtMost-trans, max_fact-left, max_fact-right, find-commit_usage,
}

-- A fact that covers the counts of an event.
pub record Covers (e : UsageEvent) (f : Fact) : Type 0 where
  pub miss : e.miss ≤ℤ f.miss
  pub cache_read : e.cache_read ≤ℤ f.cache_read
  pub cache_create : e.cache_create ≤ℤ f.cache_create
  pub output : e.output ≤ℤ f.output
  pub reasoning : e.reasoning ≤ℤ f.reasoning

Covers-trans : {e : UsageEvent} {f g : Fact} → Covers e f → AtMost f g → Covers e g
Covers-trans c a = record {
  miss = omega (arith, c.miss, a.miss);
  cache_read = omega (arith, c.cache_read, a.cache_read);
  cache_create = omega (arith, c.cache_create, a.cache_create);
  output = omega (arith, c.output, a.output);
  reasoning = omega (arith, c.reasoning, a.reasoning);
}

-- The map holds a fact under the id, and it satisfies `P`.
abbrev Holds : Dict Fact → Text → (Fact → Type 0) → Type 0
Holds out id P = (f : Fact) × (get id out ≡ some f) × P f

module _ (sha256_hex : Text → Text) where
  fact_from-Covers : (e : UsageEvent) (id : Text) → Covers e (fact_from sha256_hex e id)
  unfolding fact_from
  fact_from-Covers e id = record {
    miss = omega arith;
    cache_read = omega arith;
    cache_create = omega arith;
    output = omega arith;
    reasoning = omega arith;
  }

  reduce_keyed-Covers :
      (out : Dict Fact) (e : UsageEvent) (id : Text)
      → Holds (reduce_keyed sha256_hex out e id) id (Covers e)
  unfolding reduce_keyed
  reduce_keyed-Covers out e id =
      let f = fact_from sha256_hex e id in
      elim (Option-cases (get id out)) [
        | inl new ↦ (f, rw (get-put, text_eq_self id, new), fact_from-Covers e id)
        | inr (prev, old) ↦ (
          max_fact sha256_hex prev f,
          rw (get-put, text_eq_self id, old),
          Covers-trans (fact_from-Covers e id) (max_fact-right sha256_hex prev f),
        )
      ]

  reduce_keyed-grows :
      (out : Dict Fact) (e : UsageEvent) (id j : Text) (g : Fact)
      → get j out ≡ some g
      → Holds (reduce_keyed sha256_hex out e id) j (AtMost g)
  unfolding reduce_keyed
  reduce_keyed-grows out e id j g h = elim (Bool-cases (text_eq id j)) [
    | inl same ↦
        let here : get id out ≡ some g = rw ((text_eq_iff id j).0 same) h in
        (
          max_fact sha256_hex g (fact_from sha256_hex e id),
          rw (get-put, same, here),
          max_fact-left sha256_hex g (fact_from sha256_hex e id),
        )
    | inr ne ↦ (g, rw (get-put, ne) h, AtMost-refl g)
  ]

  reduce_event-grows :
      (acc : Dict Fact × ℕ) (e : UsageEvent) (j : Text) (g : Fact)
      → get j acc.0 ≡ some g
      → Holds (reduce_event sha256_hex acc e).0 j (AtMost g)
  unfolding reduce_event
  reduce_event-grows (out, n) e j g h = elim (Bool-cases (counts_nothing e)) [
    | inl nothing ↦ rw nothing (g, h, AtMost-refl g)
    | inr counts ↦ elim (Option-cases (key e)) [
      | inl unkeyed ↦ rw (counts, unkeyed, reduce_event) (g, h, AtMost-refl g)
      | inr (id, keyed) ↦ rw (counts, keyed, reduce_event) (reduce_keyed-grows out e id j g h)
    ]
  ]

  reduce_from-grows :
      (acc : Dict Fact × ℕ) (events : List UsageEvent) (j : Text) (g : Fact)
      → get j acc.0 ≡ some g
      → Holds (reduce_from sha256_hex acc events).0 j (AtMost g)
  unfolding reduce_from
  reduce_from-grows acc [] j g h = (g, h, AtMost-refl g)
  reduce_from-grows acc (e ∷ events) j g h =
      let (f, hf, le) = reduce_event-grows acc e j g h in
      let (f', hf', le') = reduce_from-grows (reduce_event sha256_hex acc e) events j f hf in
      (f', hf', AtMost-trans le le')

  -- The event is in the map, under its key.
  abbrev pub IsReduced : Dict Fact → UsageEvent → Type 0
  IsReduced out e =
      (id : Text) → counts_nothing e ≡ false → key e ≡ some id → Holds out id (Covers e)

  reduce_event-IsReduced :
      (acc : Dict Fact × ℕ) (e : UsageEvent) → IsReduced (reduce_event sha256_hex acc e).0 e
  unfolding reduce_event
  reduce_event-IsReduced (out, n) e id counts keyed =
      rw (counts, keyed, reduce_event) (reduce_keyed-Covers out e id)

  IsReduced-reduce_from :
      (acc : Dict Fact × ℕ) (events : List UsageEvent) (e : UsageEvent)
      → IsReduced acc.0 e
      → IsReduced (reduce_from sha256_hex acc events).0 e
  IsReduced-reduce_from acc events e h id counts keyed =
      let (f, found, covers) = h id counts keyed in
      let (g, found', le) = reduce_from-grows acc events id f found in
      (g, found', Covers-trans covers le)

  reduce_from-IsReduced :
      (acc : Dict Fact × ℕ) (events : List UsageEvent)
      → All (IsReduced (reduce_from sha256_hex acc events).0) events
  unfolding reduce_from
  reduce_from-IsReduced acc [] = tt
  reduce_from-IsReduced acc (e ∷ events) = (
    IsReduced-reduce_from (reduce_event sha256_hex acc e) events e (reduce_event-IsReduced acc e),
    reduce_from-IsReduced (reduce_event sha256_hex acc e) events,
  )

  -- The row that a new identity gets covers the event.
  abbrev pub IsCommitted : List Row → List Row → UsageEvent → Type 0
  IsCommitted before after e =
      (id : Text)
      → counts_nothing e ≡ false
      → key e ≡ some id
      → find id before ≡ none
      → (r : Row) × (find id after ≡ some r) × Covers e r.fact

  IsReduced-IsCommitted :
      (events : List UsageEvent) (l : Ledger) (e : UsageEvent)
      → IsReduced (reduce sha256_hex events).0 e
      → IsCommitted l.rows (commit_usage sha256_hex events l).rows e
  unfolding absorb
  IsReduced-IsCommitted events l e h id counts keyed new =
      let (f, found, covers) = h id counts keyed in
      (new_row (bytes "scan") f, rw (find-commit_usage sha256_hex events l id, found, new), covers)

  -- After a scan is committed, an event of it that counts something, has a key, and whose key was
  -- not stored before, has a stored row whose counts are at least the event's.
  pub commit_usage-Covers :
      (events : List UsageEvent) (l : Ledger) (n : ℕ) (e : UsageEvent) (id : Text)
      → get_elem? events n ≡ some e
      → counts_nothing e ≡ false
      → key e ≡ some id
      → find id l.rows ≡ none
      → (r : Row) × (find id (commit_usage sha256_hex events l).rows ≡ some r) × Covers e r.fact
  commit_usage-Covers events l n e id at =
      IsReduced-IsCommitted events l e
        (All-get_elem? (IsReduced (reduce sha256_hex events).0) events n e
          (unfold reduce in reduce_from-IsReduced ([], 0) events) at)
        id
