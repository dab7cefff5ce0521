-- ===== src/Sync/Batch/Rows.antt =====
-- The row of a key before the sort of Build.
use where_token.Base.{
  ◌≡◌, refl, sym, ap, ◌∙◌, ◌⊎◌, inl, inr, Option, none, some, List, [], ◌∷◌, arith, if◌then◌else◌,
  Bool-cases,
}
use mathlib.Core.Bool.{true≢false}
use where_token.Base.Int.{ℤ}
use where_token.Base.Text.{Text}
use where_token.Event.{UsageEvent}
use where_token.Sync.{DailyModel}
use where_token.Sync.Store.{same_daily}
use where_token.Sync.Store.Laws.{same_daily_same, same_daily_meet}
use where_token.Sync.Batch.{
  BuildInput, RowOutcome, left_out, failed, keyed, add_counts, add_daily, row_of, rows_from,
  batch_merge,
}

-- the row under the key of a row
unfoldable pub find_daily : DailyModel → List DailyModel → Option DailyModel
find_daily k [] = none
find_daily k (r ∷ rows) = let rest = find_daily k rows in if same_daily r k then some r else rest

abbrev pub or_fresh : DailyModel → Option DailyModel → DailyModel
or_fresh fresh none = fresh
or_fresh fresh (some r) = r

add_counts-same_daily :
    (r : DailyModel) (e : UsageEvent) (k : DailyModel)
    → same_daily (add_counts r e) k ≡ same_daily r k
unfolding same_daily add_counts
add_counts-same_daily r e k = refl

find-add_daily :
    (fresh k : DailyModel) (e : UsageEvent) (rows : List DailyModel)
    → find_daily k (add_daily fresh e rows) ≡ (
        if same_daily fresh k
        then some (add_counts (or_fresh fresh (find_daily k rows)) e)
        else find_daily k rows)
unfolding find_daily add_daily
find-add_daily fresh k e [] = rw (add_counts-same_daily fresh e k) refl
find-add_daily fresh k e (r ∷ rows) = elim (Bool-cases (same_daily r fresh)) [
  | inl hit ↦
      let same = same_daily_same r fresh k hit in
      ground (arith, hit, same, add_counts-same_daily r e k)
  | inr miss ↦ elim (Bool-cases (same_daily fresh k)) [
    | inl mine ↦ elim (Bool-cases (same_daily r k)) [
      | inl twice ↦ absurd (true≢false (sym (same_daily_meet r fresh k twice mine) ∙ miss))
      | inr other ↦ rw (miss, if◌then◌else◌, other, find-add_daily fresh k e rows, mine) refl
    ]
    | inr away ↦ ground (arith, miss, away, find-add_daily fresh k e rows)
  ]
]

pub RowOutcome-cases :
    (o : RowOutcome) → (o ≡ failed) ⊎ (o ≡ left_out) ⊎ ((fresh : DailyModel) × (o ≡ keyed fresh))
RowOutcome-cases failed = inl refl
RowOutcome-cases left_out = inr (inl refl)
RowOutcome-cases (keyed fresh) = inr (inr (fresh, refl))

module _ (hmac_hex : Text → Text → Text) (i : BuildInput) (zone : ℤ) where
  -- the counts of the events whose row has the key, added to a row
  unfoldable pub daily_sum : DailyModel → Option DailyModel → List UsageEvent → Option DailyModel
  daily_sum k acc [] = acc
  daily_sum k acc (e ∷ events) = elim (row_of hmac_hex i zone e) [
    | failed ↦ daily_sum k acc events
    | left_out ↦ daily_sum k acc events
    | keyed fresh ↦
        daily_sum k (if same_daily fresh k then some (add_counts (or_fresh fresh acc) e) else acc)
          events
  ]

  find-rows_from :
      (k : DailyModel) (rows rows' : List DailyModel) (events : List UsageEvent)
      → rows_from hmac_hex i zone rows events ≡ some rows'
      → find_daily k rows' ≡ daily_sum k (find_daily k rows) events
  unfolding rows_from daily_sum
  find-rows_from k rows rows' [] h = ground arith
  find-rows_from k rows rows' (e ∷ events) h = elim (RowOutcome-cases (row_of hmac_hex i zone e)) [
    | inl stop ↦ ground (arith, stop)
    | inr (inl skip) ↦
        rw (skip, daily_sum)
          (find-rows_from k rows rows' events (sym (rw (skip, rows_from) refl) ∙ h))
    | inr (inr (fresh, go)) ↦
        rw (go, daily_sum)
          (find-rows_from k (add_daily fresh e rows) rows' events
              (sym (rw (go, rows_from) refl) ∙ h)
            ∙ ap (λ acc. daily_sum k acc events) (find-add_daily fresh k e rows))
  ]

  -- Where the loop over the merged events meets no error, the row under a key is that of the events
  -- whose row has the key.
  pub find-batch_rows :
      (k : DailyModel) (rows : List DailyModel)
      → rows_from hmac_hex i zone [] (batch_merge i.events) ≡ some rows
      → find_daily k rows ≡ daily_sum k none (batch_merge i.events)
  unfolding find_daily
  find-batch_rows k rows h = find-rows_from k [] rows (batch_merge i.events) h
