-- ===== src/Profile/Refresh/Apply/Verified.antt =====
-- When an attempt says that the wall is verified (internal/publicprofile/refresh_apply.go).
use where_token.Base.{◌≡◌, ◌≢◌, refl, arith, Bool, true, false, Option, none, some, List, [], leb}
use where_token.Base.Text.{Text, bytes, text_eq}
use where_token.Profile.Snapshot.{Snapshot}
use where_token.Profile.Labels.{Code}
use where_token.Profile.Calendar.{Time}
use where_token.Profile.Publish.{Permit}
use where_token.Profile.Refresh.{Decision, decide_refresh}
use where_token.Profile.Refresh.Laws.{decide_refresh-unverified}
use where_token.Profile.Refresh.Apply.{
  RemoteView, PutResult, Fetched, Call, Publisher, decision_after_put, after_put, look_again,
  uploaded_or_look, stored_decision, refresh_input, offline_input, body_of, apply_decision,
  apply_fetched, apply_refresh, send,
}
use where_token.Profile.Refresh.Apply.Laws.{first}

abbrev pub is_verified : Code → Bool
is_verified Code.verified = true
is_verified _ = false

-- the result says that the wall on GitHub is verified
abbrev pub claims_verified : Option Decision → Bool
claims_verified none = false
claims_verified (some d) = is_verified d.code

-- the server took the snapshot, and says that it wrote the wall
pub record IsMaterialized (res : PutResult) : Type 0 where
  pub written : text_eq res.readme (bytes "materialized") ≡ true
  pub accepted : leb 400 res.status ≡ false
  pub replaced : res.kept_previous ≡ false

unverified : (c : Code) → c ≢ Code.verified → is_verified c ≡ false
unverified c h = ground arith

decision_after_put-written :
    (d : Decision) (readme : Text)
    → is_verified d.code ≡ false
    → is_verified (decision_after_put d readme).code ≡ true
    → text_eq readme (bytes "materialized") ≡ true
unfolding decision_after_put
decision_after_put-written d readme u h = ground arith

after_put-IsMaterialized :
    (d : Decision) (res : PutResult)
    → is_verified d.code ≡ false
    → claims_verified (after_put d res).decision ≡ true
    → IsMaterialized res
unfolding after_put
after_put-IsMaterialized d res u h = record {
  written = decision_after_put-written d res.readme u (ground arith);
  accepted = ground arith;
  replaced = ground arith;
}

look_again-unverified :
    (p : Publisher) (calls : List Call) (id : Text) (d : Decision)
    → is_verified d.code ≡ false
    → claims_verified (look_again p calls id d).0.decision ≡ false
unfolding look_again
look_again-unverified p calls id d u = ground arith

uploaded_or_look-IsMaterialized :
    (p : Publisher) (calls : List Call) (id : Text) (d : Decision) (res : Option PutResult)
    → is_verified d.code ≡ false
    → claims_verified (uploaded_or_look p calls id d res).0.decision ≡ true
    → (r : PutResult) × (res ≡ some r) × IsMaterialized r
unfolding uploaded_or_look
uploaded_or_look-IsMaterialized p calls id d none u h =
    ground (arith, look_again-unverified p calls id d u)
uploaded_or_look-IsMaterialized p calls id d (some res) u h = (
  res,
  refl,
  after_put-IsMaterialized d res u (ground (arith, look_again-unverified p calls id d u)),
)

stored_decision-unverified :
    (v : RemoteView) (local : Snapshot) (d : Decision)
    → is_verified d.code ≡ false
    → is_verified (stored_decision v local d).code ≡ false
unfolding stored_decision
stored_decision-unverified v local d u = ground arith

module _ (valid : Snapshot → Bool) (marshal : Snapshot → Option Text)
    (sensitive : Text → Bool) where
  -- an upload of the attempt, which the server answered with a materialized wall
  pub record IsWritten (p : Publisher) : Type 0 where
    pub raw : Text
    pub answer : PutResult
    pub uploaded : p.uploaded first raw ≡ some answer
    pub materialized : IsMaterialized answer

  send-IsWritten :
      (p : Publisher) (local : Snapshot) (d : Decision) (body : Option Text)
      → is_verified d.code ≡ false
      → claims_verified (send valid marshal sensitive p first local d body).0.decision ≡ true
      → IsWritten p
  send-IsWritten p local d none u h = cc
  send-IsWritten p local d (some raw) u h =
      let (res, e, m) =
        uploaded_or_look-IsMaterialized p _ local.snapshot_id d (p.uploaded first raw) u h in
      record { raw = raw; answer = res; uploaded = e; materialized = m }

  apply_decision-IsWritten :
      (p : Publisher) (v : RemoteView) (local : Snapshot) (d : Decision)
      → is_verified d.code ≡ false
      → claims_verified (apply_decision valid marshal sensitive p first v local d).0.decision ≡ true
      → IsWritten p
  unfolding apply_decision
  apply_decision-IsWritten p v local d u h =
      send-IsWritten p local d (body_of valid marshal sensitive local) u
        (ground (arith, stored_decision-unverified v local d u))

  apply_fetched-IsWritten :
      (p : Publisher) (local : Snapshot) (now : Time) (c : Permit) (f : Fetched)
      → claims_verified (apply_fetched valid marshal sensitive p first local now c f).0.decision
        ≡ true
      → IsWritten p
  unfolding apply_fetched
  apply_fetched-IsWritten p local now c Fetched.not_signed_in h = cc
  apply_fetched-IsWritten p local now c Fetched.failed h = cc
  apply_fetched-IsWritten p local now c (Fetched.view v) h =
      let i = refresh_input v local now c in
      apply_decision-IsWritten p v local (decide_refresh i)
        (unverified _ (decide_refresh-unverified i)) h

  -- An attempt says that the wall is verified only where it was online and the server answered its
  -- upload, of status below 400, with a snapshot that was taken and a wall that was materialized.
  pub apply_refresh-IsWritten :
      (p : Publisher) (local : Snapshot) (now : Time) (c : Permit) (offline : Bool)
      → claims_verified (apply_refresh valid marshal sensitive p local now c offline).0.decision
        ≡ true
      → (offline ≡ false) × IsWritten p
  unfolding apply_refresh
  apply_refresh-IsWritten p local now c true h =
      ground (arith, unverified _ (decide_refresh-unverified (offline_input local now)))
  apply_refresh-IsWritten p local now c false h =
      (refl, apply_fetched-IsWritten p local now c (p.fetched []) h)
