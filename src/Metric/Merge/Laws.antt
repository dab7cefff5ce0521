-- ===== src/Metric/Merge/Laws.antt =====
-- What merging the rows of a request keeps (internal/metric/summary.go).
use where_token.Base.{
  ℕ, zero, suc, ◌≡◌, arith, true, Option, none, some, List, [], ◌∷◌, ◌++◌, All, Bool-cases, inl,
  inr,
}
use where_token.Base.Int.{ℤ, pos, max_ℤ, ◌≤ℤ◌}
use where_token.Base.Int64.{Fits}
use where_token.Base.Text.{is_empty}
use where_token.Base.Dict.{get}
use where_token.Event.{UsageEvent}
use where_token.Metric.Merge.{
  usable_tokens, max_event, raise_at, merge_key, Merged, merge_keyed, merge_event, merge_from,
  merge_by_request,
}

-- An event whose counts are values of int64.
pub record IsCounted (e : UsageEvent) : Type 0 where
  pub miss : Fits e.miss
  pub cache_read : Fits e.cache_read
  pub cache_create : Fits e.cache_create
  pub output : Fits e.output

-- An event whose counts are naturals of int64.
pub record IsUsable (e : UsageEvent) : Type 0 where
  pub miss : (pos 0 ≤ℤ e.miss) × Fits e.miss
  pub cache_read : (pos 0 ≤ℤ e.cache_read) × Fits e.cache_read
  pub cache_create : (pos 0 ≤ℤ e.cache_create) × Fits e.cache_create
  pub output : (pos 0 ≤ℤ e.output) × Fits e.output

usable_tokens-IsUsable : (e : UsageEvent) → usable_tokens e ≡ true → IsCounted e → IsUsable e
unfolding usable_tokens
usable_tokens-IsUsable e h c = record {
  miss = (ground arith, c.miss);
  cache_read = (ground arith, c.cache_read);
  cache_create = (ground arith, c.cache_create);
  output = (ground arith, c.output);
}

max_natural :
    (a b : ℤ)
    → (pos 0 ≤ℤ a) × Fits a
    → (pos 0 ≤ℤ b) × Fits b
    → (pos 0 ≤ℤ max_ℤ a b) × Fits (max_ℤ a b)
unfolding max_ℤ
max_natural a b h k = ground arith

max_event-IsUsable : (a b : UsageEvent) → IsUsable a → IsUsable b → IsUsable (max_event a b)
unfolding max_event
max_event-IsUsable a b u v = record {
  miss = max_natural a.miss b.miss u.miss v.miss;
  cache_read = max_natural a.cache_read b.cache_read u.cache_read v.cache_read;
  cache_create = max_natural a.cache_create b.cache_create u.cache_create v.cache_create;
  output = max_natural a.output b.output u.output v.output;
}

raise_at-IsUsable :
    (i : ℕ) (e : UsageEvent) (out : List UsageEvent)
    → IsUsable e
    → All IsUsable out
    → All IsUsable (raise_at i e out)
unfolding raise_at
raise_at-IsUsable i e [] u us = tt
raise_at-IsUsable zero e (m ∷ out) u (v, us) = (max_event-IsUsable m e v u, us)
raise_at-IsUsable (suc i) e (m ∷ out) u (v, us) = (v, raise_at-IsUsable i e out u us)

All-snoc :
    (out : List UsageEvent) (e : UsageEvent)
    → All IsUsable out
    → IsUsable e
    → All IsUsable (out ++ (e ∷ []))
All-snoc [] e us u = (u, tt)
All-snoc (m ∷ out) e (v, us) u = (v, All-snoc out e us u)

merge_keyed-IsUsable :
    (m : Merged) (e : UsageEvent) (at : Option ℕ)
    → All IsUsable m.0
    → IsUsable e
    → All IsUsable (merge_keyed m e at).0
merge_keyed-IsUsable (out, index) e none us u = All-snoc out e us u
merge_keyed-IsUsable (out, index) e (some i) us u = raise_at-IsUsable i e out u us

merge_event-IsUsable :
    (m : Merged) (e : UsageEvent)
    → All IsUsable m.0
    → IsCounted e
    → All IsUsable (merge_event m e).0
unfolding merge_event
merge_event-IsUsable (out, index) e us c = elim (Bool-cases (usable_tokens e)) [
  | inr skipped ↦ rw skipped us
  | inl usable ↦ elim (Bool-cases (is_empty e.request_id)) [
    | inl anonymous ↦ rw (usable, anonymous) (All-snoc out e us (usable_tokens-IsUsable e usable c))
    | inr named ↦
        rw (usable, named)
          (merge_keyed-IsUsable (out, index) e (get (merge_key e) index) us
            (usable_tokens-IsUsable e usable c))
  ]
]

merge_from-IsUsable :
    (m : Merged) (events : List UsageEvent)
    → All IsUsable m.0
    → All IsCounted events
    → All IsUsable (merge_from m events).0
unfolding merge_from
merge_from-IsUsable m [] us c = us
merge_from-IsUsable m (e ∷ events) us (c, cs) =
    merge_from-IsUsable (merge_event m e) events (merge_event-IsUsable m e us c) cs

-- Every merged event has counts that are not negative, whatever rows are read.
pub merge_by_request-IsUsable :
    (events : List UsageEvent) → All IsCounted events → All IsUsable (merge_by_request events)
unfolding merge_by_request
merge_by_request-IsUsable events c = merge_from-IsUsable ([], []) events tt c
