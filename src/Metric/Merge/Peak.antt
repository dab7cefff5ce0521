-- ===== src/Metric/Merge/Peak.antt =====
-- Every row that is read is below its merged event (`mergeByRequest`, internal/metric/summary.go).
use where_token.Base.{
  ℕ, zero, suc, ◌≡◌, refl, sym, ◌∙◌, ap, arith, inl, inr, true, false, Option, none, some, List, [],
  ◌∷◌, ◌++◌, length, get_elem?, Bool-cases,
}
use mathlib.Core.Path.{subst}
use mathlib.Core.Option.{some-injective}
use where_token.Base.Int.{◌≤ℤ◌, max_ℤ-left, max_ℤ-right}
use where_token.Base.Text.{Text, is_empty, text_eq, text_eq_iff}
use where_token.Base.Dict.{Dict, get, put, get-put}
use where_token.Event.{UsageEvent}
use where_token.Metric.Merge.{
  usable_tokens, max_event, raise_at, merge_key, Merged, merge_keyed, merge_event, merge_from,
  merge_by_request,
}

-- the value of an option, or another
abbrev some_or : UsageEvent → Option UsageEvent → UsageEvent
some_or x none = x
some_or x (some y) = y

-- an event of the same request with no lower count
pub record IsBelow (e m : UsageEvent) : Type 0 where
  pub request : merge_key m ≡ merge_key e
  pub miss : e.miss ≤ℤ m.miss
  pub cache_read : e.cache_read ≤ℤ m.cache_read
  pub cache_create : e.cache_create ≤ℤ m.cache_create
  pub output : e.output ≤ℤ m.output

IsBelow-refl : (e : UsageEvent) → IsBelow e e
IsBelow-refl e = record {
  request = refl;
  miss = omega arith;
  cache_read = omega arith;
  cache_create = omega arith;
  output = omega arith;
}

IsBelow-trans : (a b c : UsageEvent) → IsBelow a b → IsBelow b c → IsBelow a c
IsBelow-trans a b c p q = record {
  request = q.request ∙ p.request;
  miss = omega (arith, p.miss, q.miss);
  cache_read = omega (arith, p.cache_read, q.cache_read);
  cache_create = omega (arith, p.cache_create, q.cache_create);
  output = omega (arith, p.output, q.output);
}

max_event-left : (a b : UsageEvent) → IsBelow a (max_event a b)
unfolding max_event merge_key
max_event-left a b = record {
  request = refl;
  miss = max_ℤ-left a.miss b.miss;
  cache_read = max_ℤ-left a.cache_read b.cache_read;
  cache_create = max_ℤ-left a.cache_create b.cache_create;
  output = max_ℤ-left a.output b.output;
}

max_event-right : (a b : UsageEvent) → merge_key a ≡ merge_key b → IsBelow b (max_event a b)
unfolding max_event
max_event-right a b same = record {
  request = (max_event-left a b).request ∙ same;
  miss = max_ℤ-right a.miss b.miss;
  cache_read = max_ℤ-right a.cache_read b.cache_read;
  cache_create = max_ℤ-right a.cache_create b.cache_create;
  output = max_ℤ-right a.output b.output;
}

-- The list has, at an index, an event of the same request with no lower count.
pub record IsCovered (out : List UsageEvent) (e : UsageEvent) : Type 0 where
  pub index : ℕ
  pub merged : UsageEvent
  pub at : get_elem? out index ≡ some merged
  pub below : IsBelow e merged

-- Every event of one list is below the event of the other at its index.
abbrev Kept : List UsageEvent → List UsageEvent → Type 0
Kept out out' =
    (i : ℕ) (m : UsageEvent)
    → get_elem? out i ≡ some m
    → (m' : UsageEvent) × (get_elem? out' i ≡ some m') × IsBelow m m'

-- Every indexed position holds an event of the request.
abbrev Indexed : Merged → Type 0
Indexed (out, index) =
    (k : Text) (i : ℕ)
    → get k index ≡ some i
    → (m : UsageEvent) × (get_elem? out i ≡ some m) × (merge_key m ≡ k)

Kept-refl : (out : List UsageEvent) → Kept out out
Kept-refl out i m at = (m, at, IsBelow-refl m)

snoc-Kept : (out : List UsageEvent) (e : UsageEvent) → Kept out (out ++ (e ∷ []))
snoc-Kept [] e i m at = cc
snoc-Kept (x ∷ out) e zero m at = (m, at, IsBelow-refl m)
snoc-Kept (x ∷ out) e (suc i) m at = snoc-Kept out e i m at

snoc_last :
    (out : List UsageEvent) (e : UsageEvent) → get_elem? (out ++ (e ∷ [])) (length out) ≡ some e
snoc_last [] e = refl
snoc_last (x ∷ out) e = snoc_last out e

raise_at-Kept : (i : ℕ) (e : UsageEvent) (out : List UsageEvent) → Kept out (raise_at i e out)
unfolding raise_at
raise_at-Kept i e [] j m at = cc
raise_at-Kept zero e (x ∷ out) zero m at =
    (max_event m e, ap (λ o. some (max_event (some_or x o) e)) at, max_event-left m e)
raise_at-Kept zero e (x ∷ out) (suc j) m at = (m, at, IsBelow-refl m)
raise_at-Kept (suc i) e (x ∷ out) zero m at = (m, at, IsBelow-refl m)
raise_at-Kept (suc i) e (x ∷ out) (suc j) m at = raise_at-Kept i e out j m at

raise_at_hit :
    (i : ℕ) (e : UsageEvent) (out : List UsageEvent) (m : UsageEvent)
    → get_elem? out i ≡ some m
    → get_elem? (raise_at i e out) i ≡ some (max_event m e)
unfolding raise_at
raise_at_hit i e [] m at = cc
raise_at_hit zero e (x ∷ out) m at = ap (λ o. some (max_event (some_or x o) e)) at
raise_at_hit (suc i) e (x ∷ out) m at = raise_at_hit i e out m at

Indexed-Kept :
    (out out' : List UsageEvent) (index : Dict ℕ)
    → Kept out out'
    → Indexed (out, index)
    → Indexed (out', index)
Indexed-Kept out out' index kept ix k i hit =
    let (m, at, key) = ix k i hit in
    let (m', at', below) = kept i m at in (m', at', below.request ∙ key)

-- What one turn of the loop does.
record Turn (before after : Merged) : Type 0 where
  kept : Kept before.0 after.0
  indexed : Indexed after

new-Indexed :
    (out : List UsageEvent) (index : Dict ℕ) (e : UsageEvent)
    → Indexed (out, index)
    → Indexed (out ++ (e ∷ []), put (merge_key e) (length out) index)
new-Indexed out index e ix k i hit = elim (Bool-cases (text_eq (merge_key e) k)) [
  | inl same ↦
      let here : some (length out) ≡ some i =
        sym (get-put (merge_key e) k (length out) index ∙ rw same refl) ∙ hit in
      (
        e,
        ap (get_elem? (out ++ (e ∷ []))) (sym (some-injective (length out) i here))
            ∙ snoc_last out e,
        (text_eq_iff (merge_key e) k).0 same,
      )
  | inr other ↦
      let old : get k index ≡ some i =
        sym (get-put (merge_key e) k (length out) index ∙ rw other refl) ∙ hit in
      Indexed-Kept out (out ++ (e ∷ [])) index (snoc-Kept out e) ix k i old
]

merge_keyed-Turn :
    (out : List UsageEvent) (index : Dict ℕ) (e : UsageEvent) (o : Option ℕ)
    → get (merge_key e) index ≡ o
    → Indexed (out, index)
    → Turn (out, index) (merge_keyed (out, index) e o)
      × IsCovered (merge_keyed (out, index) e o).0 e
merge_keyed-Turn out index e none new ix = (
  record { kept = snoc-Kept out e; indexed = new-Indexed out index e ix },
  record { index = length out; merged = e; at = snoc_last out e; below = IsBelow-refl e },
)
merge_keyed-Turn out index e (some i) hit ix =
    let (m, at, key) = ix (merge_key e) i hit in
    (
      record {
        kept = raise_at-Kept i e out;
        indexed = Indexed-Kept out (raise_at i e out) index (raise_at-Kept i e out) ix;
      },
      record {
        index = i;
        merged = max_event m e;
        at = raise_at_hit i e out m at;
        below = max_event-right m e key;
      },
    )

merge_event-Turn : (m : Merged) (e : UsageEvent) → Indexed m → Turn m (merge_event m e)
unfolding merge_event
merge_event-Turn (out, index) e ix = elim (Bool-cases (usable_tokens e)) [
  | inr skipped ↦ rw skipped (record { kept = Kept-refl out; indexed = ix })
  | inl usable ↦ elim (Bool-cases (is_empty e.request_id)) [
    | inl anonymous ↦
        rw (usable, anonymous)
          (record {
            kept = snoc-Kept out e;
            indexed = Indexed-Kept out (out ++ (e ∷ [])) index (snoc-Kept out e) ix;
          })
    | inr named ↦
        rw (usable, named) (merge_keyed-Turn out index e (get (merge_key e) index) refl ix).0
  ]
]

merge_event-IsCovered :
    (m : Merged) (e : UsageEvent)
    → Indexed m
    → usable_tokens e ≡ true
    → is_empty e.request_id ≡ false
    → IsCovered (merge_event m e).0 e
unfolding merge_event
merge_event-IsCovered (out, index) e ix usable named =
    rw (usable, named) (merge_keyed-Turn out index e (get (merge_key e) index) refl ix).1

IsCovered-Kept :
    (out out' : List UsageEvent) (e : UsageEvent)
    → Kept out out'
    → IsCovered out e
    → IsCovered out' e
IsCovered-Kept out out' e kept c =
    let (m, at, below) = kept c.index c.merged c.at in
    record {
      index = c.index;
      merged = m;
      at = at;
      below = IsBelow-trans e c.merged m c.below below;
    }

IsCovered-of_eq :
    (out : List UsageEvent) (x e : UsageEvent) → x ≡ e → IsCovered out x → IsCovered out e
IsCovered-of_eq out x e same c = subst (IsCovered out) same c

merge_from-IsCovered :
    (m : Merged) (events : List UsageEvent) (e : UsageEvent)
    → Indexed m
    → IsCovered m.0 e
    → IsCovered (merge_from m events).0 e
unfolding merge_from
merge_from-IsCovered m [] e ix c = c
merge_from-IsCovered m (x ∷ events) e ix c =
    let t = merge_event-Turn m x ix in
    merge_from-IsCovered (merge_event m x) events e t.indexed
      (IsCovered-Kept m.0 (merge_event m x).0 e t.kept c)

merge_from_covers :
    (m : Merged) (events : List UsageEvent) (n : ℕ) (e : UsageEvent)
    → Indexed m
    → get_elem? events n ≡ some e
    → usable_tokens e ≡ true
    → is_empty e.request_id ≡ false
    → IsCovered (merge_from m events).0 e
unfolding merge_from
merge_from_covers m [] n e ix at usable named = cc
merge_from_covers m (x ∷ events) zero e ix at usable named =
    merge_from-IsCovered (merge_event m x) events e (merge_event-Turn m x ix).indexed (
      IsCovered-of_eq (merge_event m x).0 x e (some-injective x e at) (
        merge_event-IsCovered m x ix (ap usable_tokens (some-injective x e at) ∙ usable)
          (ap (λ z. is_empty z.request_id) (some-injective x e at) ∙ named)))
merge_from_covers m (x ∷ events) (suc n) e ix at usable named =
    merge_from_covers (merge_event m x) events n e (merge_event-Turn m x ix).indexed at usable named

-- Every row with usable counts and a request id is below a merged event of its source and request.
pub merge_by_request-IsCovered :
    (events : List UsageEvent) (n : ℕ) (e : UsageEvent)
    → get_elem? events n ≡ some e
    → usable_tokens e ≡ true
    → is_empty e.request_id ≡ false
    → IsCovered (merge_by_request events) e
unfolding merge_by_request get
merge_by_request-IsCovered events n e at usable named =
    merge_from_covers ([], []) events n e (λ k i hit. cc) at usable named
