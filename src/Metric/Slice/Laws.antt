-- ===== src/Metric/Slice/Laws.antt =====
-- What the totals of a list of events are (internal/metric/summary.go).
use where_token.Base.{◌≡◌, refl, sym, ◌∙◌, ap, arith, List, [], ◌∷◌, All}
use where_token.Base.Int.{ℤ, pos, pos_part, neg_part, ◌+ℤ◌, ◌≤ℤ◌, +ℤ_parts, eq_of_parts}
use where_token.Base.Int64.{Fits}
use where_token.Base.Text.{bytes}
use where_token.Event.{UsageEvent}
use where_token.Metric.Sum.{sat_add, clamp, sat_add_of_clamp, clamp_of_Fits}
use where_token.Metric.Merge.{merge_by_request}
use where_token.Metric.Merge.Laws.{IsUsable, IsCounted, merge_by_request-IsUsable}
use where_token.Metric.Slice.{
  Charge, Slice, new_slice, total, tokens, add_tokens, add_slice, finish_cost, add_all, cost_slice,
}

-- the exact number of tokens
unfoldable pub exact : UsageEvent → ℤ
exact e = (e.miss +ℤ e.cache_read) +ℤ (e.cache_create +ℤ e.output)

unfoldable pub exact_sum : List UsageEvent → ℤ
exact_sum [] = pos 0
exact_sum (e ∷ events) = exact e +ℤ exact_sum events

sum_not_negative : (a b : ℤ) → pos 0 ≤ℤ a → pos 0 ≤ℤ b → pos 0 ≤ℤ a +ℤ b
sum_not_negative a b h k = omega (arith, +ℤ_parts a b)

-- a sum of two values of int64 that are naturals
sat_add_exact :
    (a b : ℤ) → (pos 0 ≤ℤ a) × Fits a → (pos 0 ≤ℤ b) × Fits b → sat_add a b ≡ clamp (a +ℤ b)
sat_add_exact a b (h, f) (k, g) =
    ap (λ z. sat_add z b) (sym (clamp_of_Fits a f))
    ∙ ap (sat_add (clamp a)) (sym (clamp_of_Fits b g))
    ∙ sat_add_of_clamp a b h k

sat_add_four :
    (a b c d : ℤ)
    → (pos 0 ≤ℤ a) × Fits a
    → (pos 0 ≤ℤ b) × Fits b
    → (pos 0 ≤ℤ c) × Fits c
    → (pos 0 ≤ℤ d) × Fits d
    → sat_add (sat_add a b) (sat_add c d) ≡ clamp ((a +ℤ b) +ℤ (c +ℤ d))
sat_add_four a b c d ha hb hc hd =
    ap (λ z. sat_add z (sat_add c d)) (sat_add_exact a b ha hb)
    ∙ ap (sat_add (clamp (a +ℤ b))) (sat_add_exact c d hc hd)
    ∙ sat_add_of_clamp (a +ℤ b) (c +ℤ d) (sum_not_negative a b (ha.0) (hb.0))
        (sum_not_negative c d (hc.0) (hd.0))

tokens-clamp : (e : UsageEvent) → IsUsable e → tokens e ≡ clamp (exact e)
unfolding tokens exact
tokens-clamp e u =
    sat_add_four e.miss e.cache_read e.cache_create e.output u.miss u.cache_read u.cache_create
      u.output

-- the sum of a count over the events
unfoldable pub sum_by : (UsageEvent → ℤ) → List UsageEvent → ℤ
sum_by g [] = pos 0
sum_by g (e ∷ events) = g e +ℤ sum_by g events

+ℤ_zero : (a : ℤ) → a +ℤ pos 0 ≡ a
+ℤ_zero a = eq_of_parts (a +ℤ pos 0) a (omega (arith, +ℤ_parts a (pos 0)))

+ℤ_assoc : (a b c : ℤ) → (a +ℤ b) +ℤ c ≡ a +ℤ (b +ℤ c)
+ℤ_assoc a b c =
    eq_of_parts ((a +ℤ b) +ℤ c) (a +ℤ (b +ℤ c))
      (omega (arith, +ℤ_parts a b, +ℤ_parts (a +ℤ b) c, +ℤ_parts b c, +ℤ_parts a (b +ℤ c)))

zero_clamp : pos 0 ≡ clamp (pos 0)
unfolding clamp
zero_clamp = refl

sum_split :
    (e : UsageEvent → ℤ) (f g : UsageEvent → ℤ)
    → ((x : UsageEvent) → e x ≡ f x +ℤ g x)
    → (events : List UsageEvent) → sum_by e events ≡ sum_by f events +ℤ sum_by g events
unfolding sum_by
sum_split e f g h [] = sym (+ℤ_zero (pos 0))
sum_split e f g h (x ∷ events) =
    let a = sum_by f events in
    let b = sum_by g events in
    eq_of_parts _ _ (
      omega (
        arith,
        +ℤ_parts (e x) (sum_by e events),
        ap pos_part (sum_split e f g h events),
        ap neg_part (sum_split e f g h events),
        +ℤ_parts a b,
        ap pos_part (h x),
        ap neg_part (h x),
        +ℤ_parts (f x) (g x),
        +ℤ_parts (f x) a,
        +ℤ_parts (g x) b,
        +ℤ_parts (f x +ℤ a) (g x +ℤ b),
      ))

sum_by-not_negative :
    (g : UsageEvent → ℤ)
    → ((e : UsageEvent) → IsUsable e → pos 0 ≤ℤ g e)
    → (events : List UsageEvent) → All IsUsable events
    → pos 0 ≤ℤ sum_by g events
unfolding sum_by
sum_by-not_negative g p [] u = omega arith
sum_by-not_negative g p (e ∷ events) (u, us) =
    sum_not_negative (g e) (sum_by g events) (p e u) (sum_by-not_negative g p events us)

zero_+ℤ : (a : ℤ) → pos 0 +ℤ a ≡ a
zero_+ℤ a = eq_of_parts (pos 0 +ℤ a) a (omega (arith, +ℤ_parts (pos 0) a))

sum_of_four :
    (s : Slice) (m r c o : ℤ)
    → s.miss ≡ clamp m
    → s.cache_read ≡ clamp r
    → s.cache_create ≡ clamp c
    → s.output ≡ clamp o
    → pos 0 ≤ℤ m
    → pos 0 ≤ℤ r
    → pos 0 ≤ℤ c
    → pos 0 ≤ℤ o
    → total s ≡ clamp ((m +ℤ r) +ℤ (c +ℤ o))
unfolding total
sum_of_four s m r c o em er ec eo pm pr pc po =
    rw (em, er, ec, eo, sat_add_of_clamp m r pm pr, sat_add_of_clamp c o pc po)
      (sat_add_of_clamp (m +ℤ r) (c +ℤ o) (sum_not_negative m r pm pr) (sum_not_negative c o pc po))

module _ (charge : UsageEvent → Charge) where
  -- a field of a slice counts `g`: it grows by it, held at the end of int64
  abbrev pub Counts : (Slice → ℤ) → (UsageEvent → ℤ) → Type 0
  Counts f g =
      (s : Slice) (e : UsageEvent) (a : ℤ)
      → IsUsable e
      → pos 0 ≤ℤ a
      → f s ≡ clamp a
      → (pos 0 ≤ℤ g e) × (f (add_slice s e (charge e)) ≡ clamp (a +ℤ g e))

  add_all-sum :
      (f : Slice → ℤ) (g : UsageEvent → ℤ)
      → Counts f g
      → (s : Slice) (events : List UsageEvent) (a : ℤ) → All IsUsable events
      → pos 0 ≤ℤ a
      → f s ≡ clamp a
      → f (add_all charge s events) ≡ clamp (a +ℤ sum_by g events)
  unfolding add_all sum_by
  add_all-sum f g c s [] a u h e = e ∙ ap clamp (sym (+ℤ_zero a))
  add_all-sum f g c s (x ∷ events) a (u, us) h e =
      let (positive, step) = c s x a u h e in
      add_all-sum f g c (add_slice s x (charge x)) events (a +ℤ g x) us
        (sum_not_negative a (g x) h positive) step
      ∙ ap clamp (+ℤ_assoc a (g x) (sum_by g events))

  grow :
      (x a b : ℤ)
      → pos 0 ≤ℤ a
      → x ≡ clamp a
      → (pos 0 ≤ℤ b) × Fits b
      → (pos 0 ≤ℤ b) × (sat_add x b ≡ clamp (a +ℤ b))
  grow x a b h e (k, f) = (
    k,
    ap (λ z. sat_add z b) e
        ∙ ap (sat_add (clamp a)) (sym (clamp_of_Fits b f))
        ∙ sat_add_of_clamp a b h k,
  )

  add_slice-miss :
      (s : Slice) (e : UsageEvent) (c : Charge) → (add_slice s e c).miss ≡ sat_add s.miss e.miss
  unfolding add_slice add_tokens
  add_slice-miss s e c = ground arith

  add_slice-cache_read :
      (s : Slice) (e : UsageEvent) (c : Charge)
      → (add_slice s e c).cache_read ≡ sat_add s.cache_read e.cache_read
  unfolding add_slice add_tokens
  add_slice-cache_read s e c = ground arith

  add_slice-cache_create :
      (s : Slice) (e : UsageEvent) (c : Charge)
      → (add_slice s e c).cache_create ≡ sat_add s.cache_create e.cache_create
  unfolding add_slice add_tokens
  add_slice-cache_create s e c = ground arith

  add_slice-output :
      (s : Slice) (e : UsageEvent) (c : Charge)
      → (add_slice s e c).output ≡ sat_add s.output e.output
  unfolding add_slice add_tokens
  add_slice-output s e c = ground arith

  Counts-miss : Counts (λ s. s.miss) (λ e. e.miss)
  Counts-miss s e a u h k =
      let (p, q) = grow s.miss a e.miss h k u.miss in (p, add_slice-miss s e (charge e) ∙ q)

  Counts-cache_read : Counts (λ s. s.cache_read) (λ e. e.cache_read)
  Counts-cache_read s e a u h k =
      let (p, q) = grow s.cache_read a e.cache_read h k u.cache_read in
      (p, add_slice-cache_read s e (charge e) ∙ q)

  Counts-cache_create : Counts (λ s. s.cache_create) (λ e. e.cache_create)
  Counts-cache_create s e a u h k =
      let (p, q) = grow s.cache_create a e.cache_create h k u.cache_create in
      (p, add_slice-cache_create s e (charge e) ∙ q)

  Counts-output : Counts (λ s. s.output) (λ e. e.output)
  Counts-output s e a u h k =
      let (p, q) = grow s.output a e.output h k u.output in (p, add_slice-output s e (charge e) ∙ q)

  -- the four sums of an exact total
  exact_parts :
      (events : List UsageEvent)
      → sum_by exact events
        ≡ (sum_by (λ e. e.miss) events +ℤ sum_by (λ e. e.cache_read) events)
          +ℤ (sum_by (λ e. e.cache_create) events +ℤ sum_by (λ e. e.output) events)
  unfolding exact
  exact_parts events =
      sum_split exact (λ e. e.miss +ℤ e.cache_read) (λ e. e.cache_create +ℤ e.output) (λ _. refl)
        events
      ∙ ap (λ z. z +ℤ sum_by (λ e. e.cache_create +ℤ e.output) events)
          (sum_split (λ e. e.miss +ℤ e.cache_read) (λ e. e.miss) (λ e. e.cache_read) (λ _. refl)
            events)
      ∙ ap (λ z. (sum_by (λ e. e.miss) events +ℤ sum_by (λ e. e.cache_read) events) +ℤ z)
          (sum_split (λ e. e.cache_create +ℤ e.output) (λ e. e.cache_create) (λ e. e.output)
            (λ _. refl) events)

  add_all_field :
      (f : Slice → ℤ) (g : UsageEvent → ℤ)
      → Counts f g
      → f (new_slice (bytes "all")) ≡ pos 0
      → (events : List UsageEvent) → All IsUsable events
      → f (add_all charge (new_slice (bytes "all")) events) ≡ clamp (sum_by g events)
  add_all_field f g c z events u =
      add_all-sum f g c (new_slice (bytes "all")) events (pos 0) u (omega arith) (z ∙ zero_clamp)
      ∙ ap clamp (zero_+ℤ (sum_by g events))

  add_all-total :
      (events : List UsageEvent)
      → All IsUsable events
      → total (add_all charge (new_slice (bytes "all")) events) ≡ clamp (sum_by exact events)
  unfolding total
  add_all-total events u =
      let m = sum_by (λ e. e.miss) events in
      let r = sum_by (λ e. e.cache_read) events in
      let c = sum_by (λ e. e.cache_create) events in
      let o = sum_by (λ e. e.output) events in
      let not_negative : (g : UsageEvent → ℤ)
          → ((e : UsageEvent) → IsUsable e → pos 0 ≤ℤ g e)
          → pos 0 ≤ℤ sum_by g events =
        λ g p. sum_by-not_negative g p events u in
      sum_of_four (add_all charge (new_slice (bytes "all")) events) m r c o
        (add_all_field (λ s. s.miss) (λ e. e.miss) Counts-miss refl events u)
        (add_all_field (λ s. s.cache_read) (λ e. e.cache_read) Counts-cache_read refl events u)
        (add_all_field (λ s. s.cache_create) (λ e. e.cache_create) Counts-cache_create refl events
          u)
        (add_all_field (λ s. s.output) (λ e. e.output) Counts-output refl events u)
        (not_negative (λ e. e.miss) (λ e u. u.miss.0))
        (not_negative (λ e. e.cache_read) (λ e u. u.cache_read.0))
        (not_negative (λ e. e.cache_create) (λ e u. u.cache_create.0))
        (not_negative (λ e. e.output) (λ e u. u.output.0))
      ∙ ap clamp (sym (exact_parts events))

  finish_cost-total : (s : Slice) → total (finish_cost s) ≡ total s
  unfolding finish_cost total
  finish_cost-total s = refl

  -- The total of a slice of events, whose counts are values of int64, is the exact sum of the tokens
  -- of the merged events, held at the end of int64: it neither wraps nor depends on where it is held.
  pub cost_slice-total :
      (events : List UsageEvent)
      → All IsCounted events
      → total (cost_slice charge events) ≡ clamp (sum_by exact (merge_by_request events))
  unfolding cost_slice
  cost_slice-total events h =
      finish_cost-total _
      ∙ add_all-total (merge_by_request events) (merge_by_request-IsUsable events h)
