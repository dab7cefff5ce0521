-- ===== src/Profile/Refresh/Apply/Laws.antt =====
-- What one refresh attempt does to the hosted API (internal/publicprofile/refresh_apply.go).
use where_token.Base.{
  ◌≡◌, refl, ◌∙◌, ap, arith, ◌⊎◌, inl, inr, Bool, true, false, ◌&&◌, Option, none, some, List, [],
  ◌∷◌, Option-cases, Bool-cases,
}
use where_token.Base.Text.{Text, text_eq}
use where_token.Profile.Snapshot.{Snapshot}
use where_token.Profile.Calendar.{Time}
use where_token.Profile.Publish.{Permit}
use where_token.Profile.Refresh.{Decision, decide_refresh}
use where_token.Profile.Refresh.Apply.{
  RemoteView, PutResult, Fetched, Call, Publisher, look_again, uploaded_or_look, shows,
  refresh_input, body_of, apply_decision, apply_fetched, apply_refresh, send,
}

-- the bodies that the calls upload
unfoldable pub puts : List Call → List Text
puts [] = []
puts (Call.fetch ∷ calls) = puts calls
puts (Call.put raw ∷ calls) = raw ∷ puts calls

-- after the first look, and after an upload
abbrev pub first : List Call
first = Call.fetch ∷ []

abbrev sent : Text → List Call
sent raw = Call.fetch ∷ Call.put raw ∷ []

look_again-puts :
    (p : Publisher) (raw : Text) (id : Text) (d : Decision)
    → puts (look_again p (sent raw) id d).1 ≡ raw ∷ []
unfolding look_again puts
look_again-puts p raw id d = ground arith

uploaded_or_look-puts :
    (p : Publisher) (raw : Text) (id : Text) (d : Decision) (res : Option PutResult)
    → puts (uploaded_or_look p (sent raw) id d res).1 ≡ raw ∷ []
unfolding uploaded_or_look puts
uploaded_or_look-puts p raw id d none = look_again-puts p raw id d
uploaded_or_look-puts p raw id d (some res) = ground (arith, look_again-puts p raw id d)

module _ (valid : Snapshot → Bool) (marshal : Snapshot → Option Text)
    (sensitive : Text → Bool) where
  -- the upload that an attempt makes, where it makes one
  pub record IsUpload (p : Publisher) (local : Snapshot) (now : Time) (c : Permit) (raw : Text)
      : Type 0 where
    pub seen : RemoteView
    pub fetched : p.fetched [] ≡ Fetched.view seen
    pub wanted : (decide_refresh (refresh_input seen local now c)).publish ≡ true
    pub changed : shows seen && text_eq seen.snapshot.snapshot_id local.snapshot_id ≡ false
    pub is_valid : valid local ≡ true
    pub marshalled : marshal local ≡ some raw
    pub clean : sensitive raw ≡ false

  body_of_ok :
      (local : Snapshot) (raw : Text)
      → body_of valid marshal sensitive local ≡ some raw
      → (valid local ≡ true) × (marshal local ≡ some raw) × (sensitive raw ≡ false)
  unfolding body_of
  body_of_ok local raw h = elim (Option-cases (marshal local)) [
    | inl n ↦ ground (arith, n)
    | inr (text, n) ↦ ground (arith, n)
  ]

  send-puts :
      (p : Publisher) (local : Snapshot) (d : Decision) (raw : Text)
      → puts (send valid marshal sensitive p first local d (some raw)).1 ≡ raw ∷ []
  send-puts p local d raw = uploaded_or_look-puts p raw local.snapshot_id d (p.uploaded first raw)

  not_published-puts :
      (p : Publisher) (local : Snapshot) (v : RemoteView) (d : Decision)
      → d.publish ≡ false
      → puts (apply_decision valid marshal sensitive p first v local d).1 ≡ []
  unfolding apply_decision puts
  not_published-puts p local v d h = rw h

  already-puts :
      (p : Publisher) (local : Snapshot) (v : RemoteView) (d : Decision)
      → d.publish ≡ true
      → shows v && text_eq v.snapshot.snapshot_id local.snapshot_id ≡ true
      → puts (apply_decision valid marshal sensitive p first v local d).1 ≡ []
  unfolding apply_decision puts
  already-puts p local v d h k = rw (h, k)

  apply_decision-send :
      (p : Publisher) (local : Snapshot) (v : RemoteView) (d : Decision)
      → d.publish ≡ true
      → shows v && text_eq v.snapshot.snapshot_id local.snapshot_id ≡ false
      → (body : Option Text) → body_of valid marshal sensitive local ≡ body
      → apply_decision valid marshal sensitive p first v local d
        ≡ send valid marshal sensitive p first local d body
  unfolding apply_decision
  apply_decision-send p local v d h k body n = rw (h, k, n)

  send-none-puts :
      (p : Publisher) (local : Snapshot) (d : Decision)
      → puts (send valid marshal sensitive p first local d none).1 ≡ []
  unfolding puts
  send-none-puts p local d = refl

  apply_view-puts :
      (p : Publisher) (local : Snapshot) (now : Time) (c : Permit) (v : RemoteView)
      → p.fetched [] ≡ Fetched.view v
      → let calls =
          (apply_decision valid marshal sensitive p first v local
            (decide_refresh (refresh_input v local now c))).1 in
        (puts calls ≡ []) ⊎ ((raw : Text) × (puts calls ≡ raw ∷ []) × IsUpload p local now c raw)
  apply_view-puts p local now c v e =
      let d = decide_refresh (refresh_input v local now c) in
      elim (Bool-cases d.publish) [
        | inr h ↦ inl (not_published-puts p local v d h)
        | inl h ↦ elim (Bool-cases (shows v && text_eq v.snapshot.snapshot_id local.snapshot_id)) [
          | inl k ↦ inl (already-puts p local v d h k)
          | inr k ↦ elim (Option-cases (body_of valid marshal sensitive local)) [
            | inl n ↦ inl (
                ap (λ r. puts r.1) (apply_decision-send p local v d h k none n)
                ∙ send-none-puts p local d)
            | inr (raw, n) ↦
                let (is_valid, marshalled, clean) = body_of_ok local raw n in
                inr (
                  raw,
                  ap (λ r. puts r.1) (apply_decision-send p local v d h k (some raw) n)
                      ∙ send-puts p local d raw,
                  record {
                    seen = v;
                    fetched = e;
                    wanted = h;
                    changed = k;
                    is_valid = is_valid;
                    marshalled = marshalled;
                    clean = clean;
                  },
                )
          ]
        ]
      ]

  apply_fetched-puts :
      (p : Publisher) (local : Snapshot) (now : Time) (c : Permit) (f : Fetched)
      → p.fetched [] ≡ f
      → let calls = (apply_fetched valid marshal sensitive p first local now c f).1 in
        (puts calls ≡ []) ⊎ ((raw : Text) × (puts calls ≡ raw ∷ []) × IsUpload p local now c raw)
  unfolding apply_fetched puts
  apply_fetched-puts p local now c Fetched.not_signed_in e = inl refl
  apply_fetched-puts p local now c Fetched.failed e = inl refl
  apply_fetched-puts p local now c (Fetched.view v) e = apply_view-puts p local now c v e

  -- One refresh attempt uploads nothing, or uploads once: then it was online, the gate wanted the
  -- upload for the envelope that it fetched, that envelope does not already show the snapshot, and
  -- the body is the marshalled snapshot, which is valid and not sensitive.
  pub apply_refresh-puts :
      (p : Publisher) (local : Snapshot) (now : Time) (c : Permit) (offline : Bool)
      → let calls = (apply_refresh valid marshal sensitive p local now c offline).1 in
        (puts calls ≡ [])
        ⊎ ((raw : Text) × (offline ≡ false) × (puts calls ≡ raw ∷ []) × IsUpload p local now c raw)
  unfolding apply_refresh puts
  apply_refresh-puts p local now c true = inl refl
  apply_refresh-puts p local now c false =
      elim (apply_fetched-puts p local now c (p.fetched []) refl) [
        | inl e ↦ inl e
        | inr (raw, e, u) ↦ inr (raw, refl, e, u)
      ]
