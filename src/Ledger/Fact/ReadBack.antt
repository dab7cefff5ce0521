-- ===== src/Ledger/Fact/ReadBack.antt =====
-- A stored fact is merged back into a scan as an event (`fact.event`): which of these events `Key`
-- recognizes again (internal/ledger/ledger.go, internal/ledger/key.go).
use where_token.Base.{
  ℕ, ◌≡◌, sym, ◌∙◌, ap, true, false, ◌||◌, none, some, ◌∷◌, ◌++◌, arith, any_of, any_of-append,
  any_of-cons, Bool-cases, inl, inr, ◌==◌,
}
use where_token.Base.Text.{Text, is_empty}
use mathlib.Core.List.{append_assoc}
use where_token.Event.{is_provider_api, is_retained}
use where_token.Ledger.Key.{
  is_slash, separator, colon, join_key, join_suffix, key, strip_session, suffix_of,
}
use where_token.Ledger.Key.Laws.{
  IsDurable, key_durable, strip_session-append, strip_session_path, suffix_of_path, any_of-middle,
  not_empty-middle, path_tail_plain,
}
use where_token.Ledger.Fact.{Fact, event}

-- A fact under a key that `Key` can have built: its parts are those of its id, it is no aggregate of
-- an account API, and its request key has no slash.
pub record IsStored (f : Fact) : Type 0 where
  pub fresh : is_provider_api f.derivation || is_retained f.derivation || f.skip ≡ false
  pub sourced : is_empty f.source ≡ false
  pub named : is_empty f.request_key ≡ false
  pub no_slash : any_of is_slash f.request_key ≡ false
  pub joined : f.id ≡ join_key f.source f.session_id f.request_key

suffix_of_plain :
    (session_id req : Text) → any_of is_slash req ≡ false → suffix_of session_id req ≡ some req
unfolding suffix_of
suffix_of_plain session_id req h = rw h

strip_session_nil :
    (session_id req : Text) → is_empty session_id ≡ true → strip_session session_id req ≡ req
unfolding strip_session
strip_session_nil session_id req h = rw h

event-IsDurable : (f : Fact) → IsStored f → IsDurable (event f)
unfolding event
event-IsDurable f s = record { fresh = s.fresh; sourced = s.sourced }

key-event-join :
    (f : Fact)
    → IsStored f
    → (req : Text) → is_empty (event f).request_id ≡ false
    → suffix_of f.session_id (strip_session f.session_id (event f).request_id) ≡ some req
    → key (event f) ≡ some (join_key f.source f.session_id req)
unfolding event
key-event-join f s req named suffix =
    key_durable (event f) (event-IsDurable f s) named ∙ ap (join_suffix (event f)) suffix

key-event-none :
    (f : Fact)
    → IsStored f
    → is_empty (event f).request_id ≡ false
    → suffix_of f.session_id (strip_session f.session_id (event f).request_id) ≡ none
    → key (event f) ≡ none
unfolding event
key-event-none f s named suffix =
    key_durable (event f) (event-IsDurable f s) named ∙ ap (join_suffix (event f)) suffix

-- the request id of the event, without and with a session
request_id_plain : (f : Fact) → is_empty f.session_id ≡ true → (event f).request_id ≡ f.request_key
unfolding event
request_id_plain f h = rw h

request_id_session :
    (f : Fact)
    → is_empty f.session_id ≡ false
    → (event f).request_id ≡ f.session_id ++ (separator ∷ f.request_key)
unfolding event
request_id_session f h = rw h

-- A stored fact whose session id has no slash is recognized: the event that it is merged back as has
-- the key under which it is stored, so a scan does not count it twice.
pub key-event :
    (f : Fact) → IsStored f → any_of is_slash f.session_id ≡ false → key (event f) ≡ some f.id
key-event f s plain = elim (Bool-cases (is_empty f.session_id)) [
  | inl nowhere ↦
      let rid = request_id_plain f nowhere in
      key-event-join f s f.request_key (rw rid s.named) (
        rw (rid, strip_session_nil f.session_id f.request_key nowhere)
          (suffix_of_plain f.session_id f.request_key s.no_slash))
      ∙ ap some (sym s.joined)
  | inr somewhere ↦
      let rid = request_id_session f somewhere in
      key-event-join f s f.request_key
        (rw rid (not_empty-middle f.session_id separator f.request_key))
        (rw
          (rid, strip_session-append f.session_id f.request_key somewhere s.named plain s.no_slash)
          (suffix_of_plain f.session_id f.request_key s.no_slash))
      ∙ ap some (sym s.joined)
]

segment-no_slash :
    (seg req : Text)
    → any_of is_slash seg ≡ false
    → any_of is_slash req ≡ false
    → any_of is_slash (seg ++ (separator ∷ req)) ≡ false
segment-no_slash seg req h k =
    ground (arith, any_of-append is_slash seg (separator ∷ req), any_of-cons is_slash separator req)

segment-no_colon :
    (seg req : Text)
    → any_of (λ c. c == colon) seg ≡ false
    → any_of (λ c. c == colon) req ≡ false
    → any_of (λ c. c == colon) (seg ++ (separator ∷ req)) ≡ false
segment-no_colon seg req h k = ground (
  arith,
  any_of-append (λ c. c == colon) seg (separator ∷ req),
  any_of-cons (λ c. c == colon) separator req,
)

-- A stored fact whose session id is a path without a colon behind its last slash, and whose request
-- key has no colon, is merged back as an event that `Key` does not recognize.
pub key-event_lost :
    (f : Fact)
    → IsStored f
    → (dir : Text) (slash : ℕ) (seg : Text) → f.session_id ≡ dir ++ (slash ∷ seg)
    → is_slash slash ≡ true
    → any_of is_slash seg ≡ false
    → any_of (λ c. c == colon) seg ≡ false
    → any_of (λ c. c == colon) f.request_key ≡ false
    → key (event f) ≡ none
key-event_lost f s dir slash seg ses sl ns nc rc =
    let somewhere : is_empty f.session_id ≡ false = rw ses (not_empty-middle dir slash seg) in
    let tail = seg ++ (separator ∷ f.request_key) in
    let path = dir ++ (slash ∷ tail) in
    let rid : (event f).request_id ≡ path =
      request_id_session f somewhere
      ∙ ap (λ t. t ++ (separator ∷ f.request_key)) ses
      ∙ append_assoc dir (slash ∷ seg) (separator ∷ f.request_key) in
    let slashed = any_of-middle is_slash dir slash tail sl in
    let lost : suffix_of f.session_id (strip_session f.session_id path) ≡ none =
      rw (strip_session_path f.session_id path slashed) (
        suffix_of_path f.session_id path slashed somewhere
        ∙ path_tail_plain dir slash tail sl (segment-no_slash seg f.request_key ns s.no_slash)
            (segment-no_colon seg f.request_key nc rc)) in
    key-event-none f s (rw rid (not_empty-middle dir slash tail)) (rw rid lost)
