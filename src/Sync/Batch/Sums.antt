-- ===== src/Sync/Batch/Sums.antt =====
-- What the rows of Build count, said by the fields of the events.
use where_token.Base.{
  ◌≡◌, refl, sym, ap, ◌∙◌, inl, inr, true, ◌||◌, Option, none, some, List, [], ◌∷◌, arith,
  if◌then◌else◌, Bool-cases, Option-cases, select, any_of, is_some,
}
use where_token.Base.Int.{ℤ, pos, ◌+ℤ◌, int_laws}
use where_token.Base.Int64.{wrap64, add64, wrap64-sum, wrap64-Fits, wrap64_of_Fits}
use where_token.Base.Text.{Text}
use where_token.Event.{UsageEvent}
use where_token.Event.Clock.{is_zero_time}
use where_token.Sync.{SourceScope, device_local, account_global, scope_of, DailyModel}
use where_token.Sync.Store.{same_daily}
use where_token.Sync.Batch.{
  BuildInput, RowOutcome, left_out, failed, keyed, new_daily, add_counts, row_of, rows_from,
  hash_for, unhashed, batch_merge,
}
use where_token.Sync.Batch.Keys.{
  belongs, is_keyed, row_of-belongs, row_of_missing, row_of_found, belongs_skip,
}
use where_token.Sync.Batch.Rows.{find_daily, or_fresh, daily_sum, RowOutcome-cases, find-batch_rows}

-- the counts of a row
pub data Field : Type 0 where
  miss cache_read cache_create output requests : Field

abbrev pub field_of : Field → DailyModel → ℤ
field_of miss r = r.miss
field_of cache_read r = r.cache_read
field_of cache_create r = r.cache_create
field_of output r = r.output
field_of requests r = r.requests

-- no row counts nothing
abbrev pub field_or_zero : Field → Option DailyModel → ℤ
field_or_zero f none = pos 0
field_or_zero f (some r) = field_of f r

-- what one event counts: its tokens, and one request unless it is to be skipped
abbrev pub event_count : Field → UsageEvent → ℤ
event_count miss e = e.miss
event_count cache_read e = e.cache_read
event_count cache_create e = e.cache_create
event_count output e = e.output
event_count requests e = if e.skip_request then pos 0 else pos 1

-- the exact sum over the events
unfoldable pub exact_sum : Field → List UsageEvent → ℤ
exact_sum f [] = pos 0
exact_sum f (e ∷ events) = event_count f e +ℤ exact_sum f events

field_of-add_counts :
    (f : Field) (r : DailyModel) (e : UsageEvent)
    → wrap64 (field_of f r) ≡ field_of f r
    → field_of f (add_counts r e) ≡ wrap64 (field_of f r +ℤ event_count f e)
unfolding add_counts add64
field_of-add_counts miss r e h = refl
field_of-add_counts cache_read r e h = refl
field_of-add_counts cache_create r e h = refl
field_of-add_counts output r e h = refl
field_of-add_counts requests r e h = elim (Bool-cases e.skip_request) [
  | inl skipped ↦
      let same : r.requests +ℤ pos 0 ≡ r.requests = omega int_laws in
      rw (skipped, if◌then◌else◌, same) (sym h)
  | inr sent ↦ rw (sent, if◌then◌else◌) refl
]

wrap64_idem : (z : ℤ) → wrap64 (wrap64 z) ≡ wrap64 z
wrap64_idem z = wrap64_of_Fits (wrap64 z) (wrap64-Fits z)

no_count : wrap64 (pos 0) ≡ pos 0
unfolding wrap64
no_count = refl

module _ (hmac_hex : Text → Text → Text) (i : BuildInput) (zone : ℤ) where
  abbrev outcome_field : Field → RowOutcome → ℤ
  outcome_field f left_out = pos 0
  outcome_field f failed = pos 0
  outcome_field f (keyed fresh) = field_of f fresh

  unhashed-zero :
      (f : Field) (s : SourceScope) → outcome_field f (unhashed hmac_hex i zone s) ≡ pos 0
  unhashed-zero f account_global = refl
  unhashed-zero f device_local = refl

  new_daily-zero :
      (f : Field) (date hash : Text) (e : UsageEvent)
      → field_of f (new_daily date hash i.revision e) ≡ pos 0
  new_daily-zero miss date hash e = refl
  new_daily-zero cache_read date hash e = refl
  new_daily-zero cache_create date hash e = refl
  new_daily-zero output date hash e = refl
  new_daily-zero requests date hash e = refl

  -- A fresh row counts nothing.
  row_of-zero : (f : Field) (e : UsageEvent) → outcome_field f (row_of hmac_hex i zone e) ≡ pos 0
  row_of-zero f e = elim (Option-cases (hash_for hmac_hex i zone e.source (scope_of e))) [
    | inl missing ↦ rw (row_of_missing hmac_hex i zone e missing) (unhashed-zero f (scope_of e))
    | inr (hash, found) ↦
        rw (row_of_found hmac_hex i zone e hash found)
          (elim (Bool-cases (is_zero_time e.timestamp)) [
            | inl undated ↦ rw (undated, if◌then◌else◌) refl
            | inr dated ↦ rw (dated, if◌then◌else◌) (new_daily-zero f _ hash e)
          ])
  ]

  -- the row that an event leaves under a key
  field-step :
      (f : Field) (acc : Option DailyModel) (e : UsageEvent) (fresh : DailyModel)
      → wrap64 (field_or_zero f acc) ≡ field_or_zero f acc
      → field_of f fresh ≡ pos 0
      → field_of f (add_counts (or_fresh fresh acc) e)
        ≡ wrap64 (field_or_zero f acc +ℤ event_count f e)
  field-step f none e fresh h blank = field_of-add_counts f fresh e (rw blank h) ∙ rw blank refl
  field-step f (some r) e fresh h blank = field_of-add_counts f r e h

  field-daily_sum :
      (f : Field) (k : DailyModel) (acc : Option DailyModel) (events : List UsageEvent)
      → wrap64 (field_or_zero f acc) ≡ field_or_zero f acc
      → field_or_zero f (daily_sum hmac_hex i zone k acc events)
        ≡ wrap64 (field_or_zero f acc +ℤ exact_sum f (select (belongs hmac_hex i zone k) events))
  unfolding daily_sum exact_sum select is_keyed
  field-daily_sum f k acc [] h =
      let same : field_or_zero f acc +ℤ pos 0 ≡ field_or_zero f acc = omega int_laws in
      rw same (sym h)
  field-daily_sum f k acc (e ∷ events) h =
      let ind = field-daily_sum f k acc events h in
      elim (RowOutcome-cases (row_of hmac_hex i zone e)) [
        | inl stop ↦
            rw (stop, daily_sum, belongs_skip hmac_hex i zone k e failed stop refl, if◌then◌else◌)
              ind
        | inr (inl skip) ↦
            rw (skip, daily_sum, belongs_skip hmac_hex i zone k e left_out skip refl, if◌then◌else◌)
              ind
        | inr (inr (fresh, go)) ↦ elim (Bool-cases (same_daily fresh k)) [
          | inr away ↦
              rw
                (
                  go,
                  daily_sum,
                  away,
                  belongs_skip hmac_hex i zone k e (keyed fresh) go away,
                  if◌then◌else◌,
                )
                ind
          | inl mine ↦
              let own : belongs hmac_hex i zone k e ≡ true =
                sym (row_of-belongs hmac_hex i zone k e)
                ∙ ap (is_keyed hmac_hex i zone k) go
                ∙ mine in
              let blank = ap (outcome_field f) (sym go) ∙ row_of-zero f e in
              let step = field-step f acc e fresh h blank in
              let x = field_or_zero f acc in
              let c = event_count f e in
              let rest = exact_sum f (select (belongs hmac_hex i zone k) events) in
              let order : (x +ℤ c) +ℤ rest ≡ x +ℤ (c +ℤ rest) = omega int_laws in
              rw (go, daily_sum, mine, own, if◌then◌else◌)
                (field-daily_sum f k (some (add_counts (or_fresh fresh acc) e)) events
                    (rw step (wrap64_idem (x +ℤ c)))
                  ∙ ap (λ y. wrap64 (y +ℤ rest)) step
                  ∙ wrap64-sum (x +ℤ c) rest
                  ∙ ap wrap64 order)
        ]
      ]

  is_some-daily_sum :
      (k : DailyModel) (acc : Option DailyModel) (events : List UsageEvent)
      → is_some (daily_sum hmac_hex i zone k acc events)
        ≡ is_some acc || any_of (belongs hmac_hex i zone k) events
  unfolding daily_sum any_of is_keyed
  is_some-daily_sum k acc [] = ground arith
  is_some-daily_sum k acc (e ∷ events) =
      let ind = is_some-daily_sum k acc events in
      elim (RowOutcome-cases (row_of hmac_hex i zone e)) [
        | inl stop ↦ rw (stop, daily_sum, belongs_skip hmac_hex i zone k e failed stop refl) ind
        | inr (inl skip) ↦
            rw (skip, daily_sum, belongs_skip hmac_hex i zone k e left_out skip refl) ind
        | inr (inr (fresh, go)) ↦ elim (Bool-cases (same_daily fresh k)) [
          | inr away ↦
              rw
                (
                  go,
                  daily_sum,
                  away,
                  belongs_skip hmac_hex i zone k e (keyed fresh) go away,
                  if◌then◌else◌,
                )
                ind
          | inl mine ↦
              let own : belongs hmac_hex i zone k e ≡ true =
                sym (row_of-belongs hmac_hex i zone k e)
                ∙ ap (is_keyed hmac_hex i zone k) go
                ∙ mine in
              rw (go, daily_sum, mine, own, if◌then◌else◌)
                (is_some-daily_sum k (some (add_counts (or_fresh fresh acc) e)) events
                  ∙ ground arith)
        ]
      ]

  -- Where the loop of Build over the merged events meets no error, the row under a key counts, before
  -- the turns are added, the exact sums of the tokens and the requests of the merged events with the
  -- key, wrapped to int64 once, and there is a row exactly where there is such an event. An event has
  -- the key of its tool, its scope, its day in the zone, its vendor, its model, and the hash of the
  -- account of its tool or of the device.
  pub field-batch_rows :
      (f : Field) (k : DailyModel) (rows : List DailyModel)
      → rows_from hmac_hex i zone [] (batch_merge i.events) ≡ some rows
      → (field_or_zero f (find_daily k rows)
          ≡ wrap64 (exact_sum f (select (belongs hmac_hex i zone k) (batch_merge i.events))))
        × (is_some (find_daily k rows) ≡ any_of (belongs hmac_hex i zone k) (batch_merge i.events))
  field-batch_rows f k rows h =
      let merged = batch_merge i.events in
      let found = find-batch_rows hmac_hex i zone k rows h in
      let sum = exact_sum f (select (belongs hmac_hex i zone k) merged) in
      let from_zero : pos 0 +ℤ sum ≡ sum = omega int_laws in
      (
        ap (field_or_zero f) found ∙ field-daily_sum f k none merged no_count ∙ ap wrap64 from_zero,
        ap is_some found ∙ is_some-daily_sum k none merged,
      )
