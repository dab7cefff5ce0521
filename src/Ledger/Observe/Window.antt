-- ===== src/Ledger/Observe/Window.antt =====
-- A finished window, or a saved observation, noted and read back.
use where_token.Base.{
  select, select-append, ◌≡◌, refl, Bool, true, false, not, List, [], ◌∷◌, ◌++◌, arith,
  if◌then◌else◌, Bool-cases, inl, inr, ap, map, All, any_of, ℕ,
}
use mathlib.Core.List.{append-nil}
use where_token.Base.Int.{ℤ}
use where_token.Base.Text.{Text, text_eq, text_eq_iff, is_empty}
use where_token.Base.Order.{text_leb, sort_by, sort_by-last, All-sort_by}
use where_token.Ledger.Observe.Tables.{
  DayComp, is_blank, Observation, ObservationMeta, DayRow, Observations, is_under, has_row,
  is_day_of, day_rows, insert_observation, observation_days, is_dated, dated_asc,
}
use where_token.Ledger.Observe.Chain.{stored, observations_asc}
use where_token.Ledger.Observe.Chain.Events.{}

-- Every stored day belongs to a stored observation.
abbrev pub IsOwned : Observations → Type 0
IsOwned o = All (λ r. has_row r.source r.payload_hash o.observations ≡ true) o.days

-- No stored observation has a later stamp.
abbrev pub IsLatest : Text → Observations → Type 0
IsLatest stamp o = All (λ ob. text_leb ob.meta.observed_at stamp ≡ true) o.observations

All-select {ℓ κ} :
    {A : Type ℓ} (P : A → Type κ) (p : A → Bool) (xs : List A) → All P xs → All P (select p xs)
unfolding select
All-select P p [] h = tt
All-select P p (x ∷ xs) (h, hs) = elim (Bool-cases (p x)) [
  | inl e ↦ rw (e, if◌then◌else◌) (h, All-select P p xs hs)
  | inr e ↦ rw (e, if◌then◌else◌) (All-select P p xs hs)
]

select_all {ℓ} : {A : Type ℓ} (xs : List A) → select (λ _. true) xs ≡ xs
unfolding select
select_all [] = refl
select_all (x ∷ xs) = ap (λ ys. x ∷ ys) (select_all xs)

module _ (source hash : Text) where
  select-day_rows :
      (ds : List DayComp)
      → map (λ r. r.comp) (select (is_day_of source hash) (day_rows source hash ds)) ≡ ds
  unfolding select is_day_of
  select-day_rows [] = refl
  select-day_rows (d ∷ ds) =
      ground (arith, select-day_rows ds, text_eq_iff source source, text_eq_iff hash hash)

  select-day_rows_other :
      (other : Text) (ds : List DayComp)
      → text_eq hash other ≡ false
      → select (is_day_of source other) (day_rows source hash ds) ≡ []
  unfolding select is_day_of
  select-day_rows_other other [] h = refl
  select-day_rows_other other (d ∷ ds) h = ground (arith, select-day_rows_other other ds h)

  select-owned :
      (os : List Observation) (rows : List DayRow)
      → has_row source hash os ≡ false
      → All (λ r. has_row r.source r.payload_hash os ≡ true) rows
      → select (is_day_of source hash) rows ≡ []
  unfolding select is_day_of
  select-owned os [] new h = refl
  select-owned os (r ∷ rows) new (h, hs) = ground (
    arith,
    select-owned os rows new hs,
    text_eq_iff r.source source,
    text_eq_iff r.payload_hash hash,
  )

  -- an observation under another hash
  abbrev IsOther : Observation → Type 0
  IsOther ob = text_eq hash ob.payload_hash ≡ false

  others :
      (os : List Observation)
      → has_row source hash os ≡ false
      → All IsOther (select (is_dated source) os)
  unfolding any_of is_under select
  others [] new = tt
  others (o ∷ os) new =
      ground (arith, others os, text_eq_iff hash o.payload_hash, text_eq_iff o.payload_hash hash)

  observation_days-other :
      (other : Text) (rows : List DayRow) (ds : List DayComp)
      → text_eq hash other ≡ false
      → observation_days source other (rows ++ day_rows source hash ds)
        ≡ observation_days source other rows
  unfolding observation_days
  observation_days-other other rows ds h =
      rw
        (
          select-append (is_day_of source other) rows (day_rows source hash ds),
          select-day_rows_other other ds h,
          append-nil,
        )
        refl

  map-stored :
      (rows : List DayRow) (ds : List DayComp) (os : List Observation)
      → All IsOther os
      → map (stored source (rows ++ day_rows source hash ds)) os ≡ map (stored source rows) os
  map-stored rows ds [] h = refl
  map-stored rows ds (o ∷ os) (h, hs) =
      ground (arith, map-stored rows ds os hs, observation_days-other o.payload_hash rows ds h)

  observation_days-own :
      (os : List Observation) (rows : List DayRow) (ds : List DayComp)
      → has_row source hash os ≡ false
      → All (λ r. has_row r.source r.payload_hash os ≡ true) rows
      → observation_days source hash (rows ++ day_rows source hash ds) ≡ sort_by (λ d. d.day) ds
  unfolding observation_days
  observation_days-own os rows ds new owned =
      rw
        (
          select-append (is_day_of source hash) rows (day_rows source hash ds),
          select-owned os rows new owned,
          select-day_rows ds,
        )
        refl

others-dated :
    (source hash : Text) (os : List Observation)
    → has_row source hash os ≡ false
    → All (IsOther source hash) (dated_asc source os)
unfolding dated_asc
others-dated source hash os new =
    All-sort_by (λ o. o.meta.observed_at) (IsOther source hash) (select (is_dated source) os)
      (others source hash os new)

abbrev pub counting : List DayComp → List DayComp
counting = select (λ d. not (is_blank d))

map-snoc {ℓ κ} :
    {A : Type ℓ} {B : Type κ} (f : A → B) (xs : List A) (x : A)
    → map f (xs ++ (x ∷ [])) ≡ map f xs ++ (f x ∷ [])
map-snoc f [] x = refl
map-snoc f (y ∷ ys) x = ap (λ zs. f y ∷ zs) (map-snoc f ys x)

dated_asc-last :
    (source : Text) (os : List Observation) (ob : Observation)
    → is_dated source ob ≡ true
    → All (λ b. text_leb b.meta.observed_at ob.meta.observed_at ≡ true) os
    → dated_asc source (os ++ (ob ∷ [])) ≡ dated_asc source os ++ (ob ∷ [])
unfolding dated_asc select
dated_asc-last source os ob dated latest =
    rw (select-append (is_dated source) os (ob ∷ []), dated, if◌then◌else◌)
      (sort_by-last (λ b. b.meta.observed_at) (select (is_dated source) os) ob
        (All-select _ (is_dated source) os latest))

-- An observation under a new hash and a last stamp is read back last, beside the others.
pub observations_asc-insert :
    (source hash : Text) (tokens : ℤ) (n : ℕ) (version : ℤ) (meta : ObservationMeta)
    (days : List DayComp) (o : Observations)
    → IsOwned o
    → IsLatest meta.observed_at o
    → is_empty meta.observed_at ≡ false
    → has_row source hash o.observations ≡ false
    → observations_asc source [] (insert_observation source hash tokens n version meta days o)
      ≡ observations_asc source [] o
        ++ record {
          hash = hash;
          from = meta.window_from;
          to = meta.window_to;
          days = sort_by (λ d. d.day) (counting days);
        }
          ∷ []
unfolding observations_asc insert_observation
observations_asc-insert source hash tokens n version meta days o owned latest dated new =
    let ob : Observation = record {
      source = source;
      payload_hash = hash;
      tokens = tokens;
      events = n;
      parser_version = version;
      meta = meta;
    } in
    let rows = o.days ++ day_rows source hash (counting days) in
    let is_last : is_dated source ob ≡ true = ground (arith, text_eq_iff source source) in
    rw
      (
        new,
        if◌then◌else◌,
        select_all (o.observations ++ (ob ∷ [])),
        select_all o.observations,
        dated_asc-last source o.observations ob is_last latest,
        map-snoc (stored source rows) (dated_asc source o.observations) ob,
        map-stored source hash o.days (counting days) (dated_asc source o.observations)
            (others-dated source hash o.observations new),
        observation_days-own source hash o.observations o.days (counting days) new owned,
      )
      refl
