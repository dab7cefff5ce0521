-- ===== src/Tests/Receive.antt =====
-- Batches that a device sends to the service, at concrete inputs.
use where_token.Base.{◌≡◌, refl, none, some, List, [], ◌∷◌, if◌then◌else◌}
use where_token.Base.Int.{ℤ, pos}
use where_token.Base.Text.{Text, bytes, text_eq}
use where_token.Sync.{DailyModel}
use where_token.Sync.Store.{find_row, apply_row, apply_rows, apply_usage}
use where_token.Sync.Receive.{Hosted, SyncCall, find_revision, sync_batch, sync_batches, key_reused}
use where_token.Sync.Receive.Laws.{sync_batch_again}
use where_token.Tests.Sync.{daily}

-- in place of the hash of the rows: a byte for each
abbrev hash_rows : List DailyModel → Text
hash_rows [] = []
hash_rows (d ∷ ds) = 1 ∷ hash_rows ds

abbrev call : ℤ → Text → List DailyModel → SyncCall
call device key rows = record {
  user_id = pos 1;
  device_id = device;
  idempotency_key = key;
  timezone = bytes "UTC";
  schema_version = pos 1;
  batch = record { sources = []; daily_model_usage = rows };
}

abbrev no_tables : Hosted
no_tables = record { usage = []; users = []; states = []; revisions = [] }

abbrev first_call : SyncCall
first_call = call (pos 7) (bytes "k") (daily (pos 100) (pos 5) (pos 3) ∷ [])

abbrev other_device : List SyncCall
other_device = call (pos 8) (bytes "k") (daily (pos 9) (pos 1) (pos 2) ∷ []) ∷ []

first_accepted : (sync_batch hash_rows first_call no_tables).1 ≡ none
unfolding sync_batch find_revision apply_usage apply_rows apply_row find_row
first_accepted = refl

sync_batch_again_example :
    let later = sync_batches hash_rows other_device (sync_batch hash_rows first_call no_tables).0 in
    sync_batch hash_rows (call (pos 7) (bytes "k") []) later
    ≡ (later, if text_eq (1 ∷ []) [] then none else some key_reused)
sync_batch_again_example =
    sync_batch_again hash_rows first_call no_tables other_device (call (pos 7) (bytes "k") [])
      first_accepted refl refl
