-- ===== src/Ledger/Observe/Chain/Listing.antt =====
-- The days that the readers of the chained observations list, each at most once.
use where_token.Base.{
  select, ◌≡◌, refl, Bool, ◌||◌, Option, none, some, List, [], ◌∷◌, arith, if◌then◌else◌, ◌∙◌,
}
use where_token.Base.Text.{Text, text_eq, text_eq_iff}
use where_token.Base.Dict.{Dict, get, put, get-put}
use where_token.Base.Order.{insert_by, sort_by, sort_texts}
use where_token.Ledger.Observe.Tables.{DayComp, is_blank}
use where_token.Ledger.Observe.Chain.{
  StoredObservation, within, delete_where, set_days, chain_step, chain_from, chain_day_map, listed,
}

-- No key stands twice.
abbrev pub IsUnique {ℓ} : {V : Type ℓ} → Dict V → Type ℓ
IsUnique [] = Unit
IsUnique ((k, v) ∷ m) = (get k m ≡ none) × IsUnique m

pub put-IsUnique {ℓ} :
    {V : Type ℓ} (k : Text) (v : V) (m : Dict V) → IsUnique m → IsUnique (put k v m)
unfolding put get
put-IsUnique k v [] h = (refl, tt)
put-IsUnique k v ((j, w) ∷ m) h =
    ground (arith, text_eq_iff j k, text_eq_iff k j, put-IsUnique k v m h.1, get-put k j v m)

get-delete_where-none {ℓ} :
    {V : Type ℓ} (p : Text → Bool) (k : Text) (m : Dict V)
    → get k m ≡ none
    → get k (delete_where p m) ≡ none
unfolding delete_where get
get-delete_where-none p k [] h = refl
get-delete_where-none p k ((j, v) ∷ m) h = ground (arith, get-delete_where-none p k m)

delete_where-IsUnique {ℓ} :
    {V : Type ℓ} (p : Text → Bool) (m : Dict V) → IsUnique m → IsUnique (delete_where p m)
unfolding delete_where
delete_where-IsUnique p [] h = tt
delete_where-IsUnique p ((j, v) ∷ m) h =
    ground (arith, delete_where-IsUnique p m h.1, get-delete_where-none p j m h.0)

set_days-IsUnique :
    (days : Dict DayComp) (ds : List DayComp) → IsUnique days → IsUnique (set_days days ds)
unfolding set_days
set_days-IsUnique days [] h = h
set_days-IsUnique days (d ∷ ds) h = ground (
  arith,
  set_days-IsUnique days ds h,
  set_days-IsUnique (put d.day d days) ds (put-IsUnique d.day d days h),
)

chain_step-IsUnique :
    (days : Dict DayComp) (ob : StoredObservation) → IsUnique days → IsUnique (chain_step days ob)
unfolding chain_step
chain_step-IsUnique days ob h = ground (
  arith,
  set_days-IsUnique days ob.days h,
  set_days-IsUnique _ ob.days (delete_where-IsUnique (within ob.from ob.to) days h),
)

chain_from-IsUnique :
    (days : Dict DayComp) (obs : List StoredObservation)
    → IsUnique days
    → IsUnique (chain_from days obs)
unfolding chain_from
chain_from-IsUnique days [] h = h
chain_from-IsUnique days (ob ∷ obs) h =
    chain_from-IsUnique (chain_step days ob) obs (chain_step-IsUnique days ob h)

pub chain_day_map-IsUnique : (obs : List StoredObservation) → IsUnique (chain_day_map obs)
unfolding chain_day_map
chain_day_map-IsUnique obs = chain_from-IsUnique [] obs tt

-- the copies of a key
abbrev pub copies : Text → List Text → List Text
copies k = select (λ j. text_eq j k)

copies-insert_by :
    (k s : Text) (ts : List Text)
    → copies k (insert_by (λ t. t) s ts) ≡ (if text_eq s k then s ∷ copies k ts else copies k ts)
unfolding insert_by select
copies-insert_by k s [] = ground arith
copies-insert_by k s (t ∷ ts) =
    ground (arith, copies-insert_by k s ts, text_eq_iff s k, text_eq_iff t k)

copies-sort_texts : (k : Text) (ts : List Text) → copies k (sort_texts ts) ≡ copies k ts
unfolding sort_by select
copies-sort_texts k [] = refl
copies-sort_texts k (t ∷ ts) =
    ground (arith, copies-insert_by k t (sort_texts ts), copies-sort_texts k ts)

abbrev pub once : Bool → Text → Option DayComp → List Text
once skipped k none = []
once skipped k (some d) = if skipped || is_blank d then [] else k ∷ []

copies-listed-none :
    (k : Text) (skipped : Text → Bool) (days : Dict DayComp)
    → get k days ≡ none
    → copies k (listed skipped days) ≡ []
unfolding listed select get
copies-listed-none k skipped [] h = refl
copies-listed-none k skipped ((j, d) ∷ days) h = ground (arith, copies-listed-none k skipped days)

copies-listed :
    (k : Text) (skipped : Text → Bool) (days : Dict DayComp)
    → IsUnique days
    → copies k (listed skipped days) ≡ once (skipped k) k (get k days)
unfolding listed select get
copies-listed k skipped [] h = refl
copies-listed k skipped ((j, d) ∷ days) h =
    ground
      (arith, copies-listed k skipped days h.1, text_eq_iff j k, copies-listed-none k skipped days)

-- After sorting, a listed day stands exactly once.
pub copies-sorted :
    (k : Text) (skipped : Text → Bool) (days : Dict DayComp)
    → IsUnique days
    → copies k (sort_texts (listed skipped days)) ≡ once (skipped k) k (get k days)
copies-sorted k skipped days h =
    copies-sort_texts k (listed skipped days) ∙ copies-listed k skipped days h
