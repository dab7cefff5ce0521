-- ===== src/Sync/Receive/Laws.antt =====
-- A device may send a batch again.
use where_token.Base.{
  ◌≡◌, refl, ap, ◌∙◌, inl, inr, Option, none, some, List, [], ◌∷◌, ◌++◌, arith, if◌then◌else◌,
  Bool-cases,
}
use where_token.Base.Int.{ℤ}
use where_token.Base.Text.{Text, text_eq, text_eq_iff}
use where_token.Sync.{DailyModel}
use where_token.Sync.Store.{UsageRow, UsageError, apply_usage}
use where_token.Sync.Receive.{
  SyncRevision, Hosted, SyncCall, key_reused, find_revision, sync_new, sync_found, sync_batch,
  sync_batches,
}

find_revision-++ :
    (device : ℤ) (key h : Text) (xs ys : List SyncRevision)
    → find_revision device key xs ≡ some h
    → find_revision device key (xs ++ ys) ≡ some h
unfolding find_revision
find_revision-++ device key h [] ys found = cc
find_revision-++ device key h (r ∷ xs) ys found =
    ground (arith, find_revision-++ device key h xs ys)

find_revision_last :
    (device : ℤ) (key : Text) (xs : List SyncRevision) (r : SyncRevision)
    → find_revision device key xs ≡ none
    → r.device_id ≡ device
    → r.idempotency_key ≡ key
    → find_revision device key (xs ++ r ∷ []) ≡ some r.body_hash
unfolding find_revision
find_revision_last device key [] r missing d k = ground (arith, text_eq_iff r.idempotency_key key)
find_revision_last device key (q ∷ xs) r missing d k =
    ground (arith, find_revision_last device key xs r)

module _ (body_hash : List DailyModel → Text) where
  find_revision-sync_new :
      (c : SyncCall) (s : Hosted) (device : ℤ) (key h : Text)
      → find_revision device key s.revisions ≡ some h
      → (done : List UsageRow × Option UsageError)
      → find_revision device key (sync_new body_hash c s done).0.revisions ≡ some h
  find_revision-sync_new c s device key h found (rows, none) =
      find_revision-++ device key h s.revisions _ found
  find_revision-sync_new c s device key h found (rows, some e) = found

  find_revision-sync_found :
      (c : SyncCall) (s : Hosted) (device : ℤ) (key h : Text)
      → find_revision device key s.revisions ≡ some h
      → (existing : Option Text)
      → find_revision device key (sync_found body_hash c s existing).0.revisions ≡ some h
  find_revision-sync_found c s device key h found none =
      find_revision-sync_new c s device key h found
        (apply_usage c.user_id c.device_id c.batch.daily_model_usage s.usage)
  find_revision-sync_found c s device key h found (some existing) =
      elim (Bool-cases (text_eq existing (body_hash c.batch.daily_model_usage))) [
        | inl same ↦ rw (same, if◌then◌else◌) found
        | inr other ↦ rw (other, if◌then◌else◌) found
      ]

  find_revision-sync_batch :
      (c : SyncCall) (s : Hosted) (device : ℤ) (key h : Text)
      → find_revision device key s.revisions ≡ some h
      → find_revision device key (sync_batch body_hash c s).0.revisions ≡ some h
  unfolding sync_batch
  find_revision-sync_batch c s device key h found =
      find_revision-sync_found c s device key h found
        (find_revision c.device_id c.idempotency_key s.revisions)

  find_revision-sync_batches :
      (calls : List SyncCall) (s : Hosted) (device : ℤ) (key h : Text)
      → find_revision device key s.revisions ≡ some h
      → find_revision device key (sync_batches body_hash calls s).revisions ≡ some h
  unfolding sync_batches
  find_revision-sync_batches [] s device key h found = found
  find_revision-sync_batches (c ∷ calls) s device key h found =
      find_revision-sync_batches calls (sync_batch body_hash c s).0 device key h
        (find_revision-sync_batch c s device key h found)

  -- what an accepted batch leaves under its key
  sync_new-revision :
      (c : SyncCall) (s : Hosted)
      → find_revision c.device_id c.idempotency_key s.revisions ≡ none
      → (done : List UsageRow × Option UsageError) → (sync_new body_hash c s done).1 ≡ none
      → find_revision c.device_id c.idempotency_key (sync_new body_hash c s done).0.revisions
        ≡ some (body_hash c.batch.daily_model_usage)
  sync_new-revision c s missing (rows, none) ok =
      find_revision_last c.device_id c.idempotency_key s.revisions _ missing refl refl
  sync_new-revision c s missing (rows, some e) ok = ground (arith, ok)

  sync_found-revision :
      (c : SyncCall) (s : Hosted) (existing : Option Text)
      → find_revision c.device_id c.idempotency_key s.revisions ≡ existing
      → (sync_found body_hash c s existing).1 ≡ none
      → find_revision c.device_id c.idempotency_key (sync_found body_hash c s existing).0.revisions
        ≡ some (body_hash c.batch.daily_model_usage)
  sync_found-revision c s none missing ok =
      sync_new-revision c s missing
        (apply_usage c.user_id c.device_id c.batch.daily_model_usage s.usage) ok
  sync_found-revision c s (some existing) found ok =
      let now = body_hash c.batch.daily_model_usage in
      elim (Bool-cases (text_eq existing now)) [
        | inl same ↦ rw (same, if◌then◌else◌) (found ∙ ap some ((text_eq_iff existing now).0 same))
        | inr other ↦ ground (arith, other, ok)
      ]

  sync_batch-revision :
      (c : SyncCall) (s : Hosted)
      → (sync_batch body_hash c s).1 ≡ none
      → find_revision c.device_id c.idempotency_key (sync_batch body_hash c s).0.revisions
        ≡ some (body_hash c.batch.daily_model_usage)
  unfolding sync_batch
  sync_batch-revision c s ok =
      sync_found-revision c s (find_revision c.device_id c.idempotency_key s.revisions) refl ok

  sync_found-some :
      (b : SyncCall) (s : Hosted) (h : Text)
      → sync_found body_hash b s (some h)
        ≡ (s, if text_eq h (body_hash b.batch.daily_model_usage) then none else some key_reused)
  sync_found-some b s h = elim (Bool-cases (text_eq h (body_hash b.batch.daily_model_usage))) [
    | inl same ↦ rw (same, if◌then◌else◌) refl
    | inr other ↦ rw (other, if◌then◌else◌) refl
  ]

  -- Once SyncBatch has taken a batch without an error, the same batch changes no table and gives no
  -- error, whatever batches of any device have come in between; and other rows under its key are
  -- refused and change no table. Rows are the same where their hash is.
  pub sync_batch_again :
      (c : SyncCall) (s : Hosted) (calls : List SyncCall) (b : SyncCall)
      → (sync_batch body_hash c s).1 ≡ none
      → b.device_id ≡ c.device_id
      → b.idempotency_key ≡ c.idempotency_key
      → let later = sync_batches body_hash calls (sync_batch body_hash c s).0 in
        sync_batch body_hash b later ≡ (
          later,
          if text_eq (body_hash c.batch.daily_model_usage) (body_hash b.batch.daily_model_usage)
              then none
              else some key_reused,
        )
  unfolding sync_batch
  sync_batch_again c s calls b ok d k =
      let later = sync_batches body_hash calls (sync_batch body_hash c s).0 in
      let there =
        find_revision-sync_batches calls (sync_batch body_hash c s).0 c.device_id c.idempotency_key
          (body_hash c.batch.daily_model_usage) (sync_batch-revision c s ok) in
      let here : find_revision b.device_id b.idempotency_key later.revisions
          ≡ some (body_hash c.batch.daily_model_usage) =
        rw (d, k) there in
      ap (sync_found body_hash b later) here
      ∙ sync_found-some b later (body_hash c.batch.daily_model_usage)
