-- ===== src/Ledger/Key/Laws.antt =====
-- Laws of the identity of a fact (internal/ledger/key.go).
use where_token.Base.{
  ℕ, suc, ◌<◌, ◌≡◌, refl, sym, ◌∙◌, ap, Bool, true, false, ◌||◌, none, some, [], ◌∷◌, ◌++◌, arith,
  ◌==◌, length, drop, any_of, any_of-append, any_of-cons, drop-append, length-append,
}
use mathlib.Core.List.{append_assoc}
use where_token.Base.Text.{Text, is_empty, has_prefix-append, last_index, index_byte}
use where_token.Event.{UsageEvent, is_provider_api, is_retained}
use where_token.Ledger.Key.{
  separator, colon, is_slash, is_separator, after_colon, segment_tail, after_slash, path_tail,
  strip_session, suffix_of, join_key, join_suffix, key, split_at_separator, split_key,
}

last_index_absent : (p : ℕ → Bool) (s : Text) → any_of p s ≡ false → last_index p s ≡ none
unfolding last_index any_of
last_index_absent p [] h = refl
last_index_absent p (c ∷ s) h = ground (arith, last_index_absent p s)

last_index-append :
    (p : ℕ → Bool) (s : Text) (c : ℕ) (t : Text)
    → p c ≡ true
    → any_of p t ≡ false
    → last_index p (s ++ c ∷ t) ≡ some (length s)
unfolding last_index
last_index-append p [] c t h k = rw (last_index_absent p t k, h)
last_index-append p (d ∷ s) c t h k = rw (last_index-append p s c t h k)

index_byte-append :
    (b : ℕ) (s t : Text)
    → any_of (λ c. c == b) s ≡ false
    → index_byte b (s ++ b ∷ t) ≡ some (length s)
unfolding index_byte any_of
index_byte-append b [] t h = ground arith
index_byte-append b (c ∷ s) t h = ground (arith, index_byte-append b s t)

drop_past : (s : Text) (c : ℕ) (t : Text) → drop (suc (length s)) (s ++ c ∷ t) ≡ t
drop_past [] c t = refl
drop_past (d ∷ s) c t = drop_past s c t

-- A file name: not empty, with no slash and no colon in it.
pub record IsFileName (file : Text) : Type 0 where
  pub named : is_empty file ≡ false
  pub no_slash : any_of is_slash file ≡ false
  pub no_colon : any_of (λ c. c == colon) file ≡ false

segment_tail-append :
    (file tail : Text)
    → IsFileName file
    → is_empty tail ≡ false
    → any_of is_slash tail ≡ false
    → segment_tail (file ++ colon ∷ tail) ≡ some tail
unfolding segment_tail after_colon
segment_tail-append file tail f ne ns = ground (
  arith,
  f.named,
  index_byte-append colon file tail f.no_colon,
  drop_past file colon tail,
  length-append file (colon ∷ tail),
)

-- The identity of a path-scoped request id is what follows the file name, in any directory.
pub path_tail-append :
    (dir : Text) (slash : ℕ) (file tail : Text)
    → is_slash slash ≡ true
    → IsFileName file
    → is_empty tail ≡ false
    → any_of is_slash tail ≡ false
    → path_tail (dir ++ (slash ∷ (file ++ (colon ∷ tail)))) ≡ some tail
unfolding path_tail after_slash
path_tail-append dir slash file tail sl f ne ns =
    let seg = file ++ colon ∷ tail in
    let clean : any_of is_slash seg ≡ false = ground (
      arith,
      f.no_slash,
      any_of-append is_slash file (colon ∷ tail),
      any_of-cons is_slash colon tail,
    ) in
    rw (last_index-append is_slash dir slash seg sl clean, path_tail)
      (ground (
        arith,
        length-append dir (slash ∷ seg),
        length-append file (colon ∷ tail),
        drop_past dir slash seg,
        segment_tail-append file tail f ne ns,
      ))

-- The event is a request that the ledger keeps: no aggregate of an account API, with a source.
pub record IsDurable (e : UsageEvent) : Type 0 where
  pub fresh : is_provider_api e.derivation || is_retained e.derivation || e.skip_request ≡ false
  pub sourced : is_empty e.source ≡ false

pub key_durable :
    (e : UsageEvent)
    → IsDurable e
    → is_empty e.request_id ≡ false
    → key e ≡ join_suffix e (suffix_of e.session_id (strip_session e.session_id e.request_id))
unfolding key
key_durable e d named = ground (arith, d.fresh, d.sourced)

pub strip_session_path :
    (session_id req : Text) → any_of is_slash req ≡ true → strip_session session_id req ≡ req
unfolding strip_session
strip_session_path session_id req h = ground arith

pub suffix_of_path :
    (session_id req : Text)
    → any_of is_slash req ≡ true
    → is_empty session_id ≡ false
    → suffix_of session_id req ≡ path_tail req
unfolding suffix_of
suffix_of_path session_id req h ne = rw (h, ne)

pub any_of-middle :
    (p : ℕ → Bool) (s : Text) (c : ℕ) (t : Text) → p c ≡ true → any_of p (s ++ c ∷ t) ≡ true
any_of-middle p s c t h = ground (arith, any_of-append p s (c ∷ t), any_of-cons p c t)

pub not_empty-middle : (s : Text) (c : ℕ) (t : Text) → is_empty (s ++ c ∷ t) ≡ false
not_empty-middle [] c t = refl
not_empty-middle (d ∷ s) c t = refl

-- For a durable event with a session, whose request id is a file in some directory and a suffix
-- after a colon, `Key` gives source, session and suffix: neither the directory nor the name of the
-- file is in the key.
pub key_of_path :
    (e : UsageEvent) (dir : Text) (slash : ℕ) (file tail : Text)
    → IsDurable e
    → is_empty e.session_id ≡ false
    → e.request_id ≡ dir ++ (slash ∷ (file ++ (colon ∷ tail)))
    → is_slash slash ≡ true
    → IsFileName file
    → is_empty tail ≡ false
    → any_of is_slash tail ≡ false
    → key e ≡ some (join_key e.source e.session_id tail)
key_of_path e dir slash file tail d ses req sl f ne ns =
    let path = dir ++ (slash ∷ (file ++ (colon ∷ tail))) in
    let slashed = any_of-middle is_slash dir slash (file ++ colon ∷ tail) sl in
    let named : is_empty e.request_id ≡ false =
      rw req (not_empty-middle dir slash (file ++ colon ∷ tail)) in
    let suffix : suffix_of e.session_id (strip_session e.session_id e.request_id) ≡ some tail =
      rw (req, strip_session_path e.session_id path slashed)
        (suffix_of_path e.session_id path slashed ses
          ∙ path_tail-append dir slash file tail sl f ne ns) in
    key_durable e d named ∙ ap (join_suffix e) suffix

length_pos : (s : Text) → is_empty s ≡ false → 0 < length s
length_pos [] h = cc
length_pos (c ∷ s) h = omega arith

any_of_nil : (p : ℕ → Bool) → any_of p [] ≡ false
unfolding any_of
any_of_nil p = refl

-- Read-back of a stored fact: the session in front of the request key is taken off again.
pub strip_session-append :
    (session_id req : Text)
    → is_empty session_id ≡ false
    → is_empty req ≡ false
    → any_of is_slash session_id ≡ false
    → any_of is_slash req ≡ false
    → strip_session session_id (session_id ++ separator ∷ req) ≡ req
unfolding strip_session
strip_session-append session_id req ns nr ss sr =
    let prefix = session_id ++ (separator ∷ []) in
    let whole : session_id ++ (separator ∷ req) ≡ prefix ++ req =
      sym (append_assoc session_id (separator ∷ []) req) in
    rw whole (
      ground (
        arith,
        has_prefix-append prefix req,
        drop-append prefix req,
        length-append prefix req,
        any_of-append is_slash prefix req,
        any_of-append is_slash session_id (separator ∷ []),
        any_of-cons is_slash separator [],
        length_pos req nr,
        any_of_nil is_slash,
      ))

split_at_separator_one : (s : Text) → any_of is_separator s ≡ false → split_at_separator s ≡ s ∷ []
unfolding split_at_separator any_of
split_at_separator_one [] h = refl
split_at_separator_one (c ∷ s) h = ground (arith, split_at_separator_one s)

split_at_separator-append :
    (s t : Text)
    → any_of is_separator s ≡ false
    → split_at_separator (s ++ separator ∷ t) ≡ s ∷ split_at_separator t
unfolding split_at_separator any_of
split_at_separator-append [] t h = refl
split_at_separator-append (c ∷ s) t h = ground (arith, split_at_separator-append s t)

-- `splitKey` takes apart what `Key` joined, where no part holds the separator.
pub split_key-join_key :
    (source session_id req : Text)
    → is_empty source ≡ false
    → is_empty req ≡ false
    → any_of is_separator source ≡ false
    → any_of is_separator session_id ≡ false
    → any_of is_separator req ≡ false
    → split_key (join_key source session_id req) ≡ some (source, session_id, req)
unfolding split_key
split_key-join_key source session_id req ns nr hs hi hr = rw (
  split_at_separator-append source (session_id ++ separator ∷ req) hs,
  split_at_separator-append session_id req hi,
  split_at_separator_one req hr,
  ns,
  nr,
)

index_byte_absent : (b : ℕ) (s : Text) → any_of (λ c. c == b) s ≡ false → index_byte b s ≡ none
unfolding index_byte any_of
index_byte_absent b [] h = refl
index_byte_absent b (c ∷ s) h = ground (arith, index_byte_absent b s)

-- A path whose last segment has no colon is no identity.
pub path_tail_plain :
    (dir : Text) (slash : ℕ) (seg : Text)
    → is_slash slash ≡ true
    → any_of is_slash seg ≡ false
    → any_of (λ c. c == colon) seg ≡ false
    → path_tail (dir ++ (slash ∷ seg)) ≡ none
unfolding path_tail after_slash segment_tail
path_tail_plain dir slash seg sl ns nc =
    rw (last_index-append is_slash dir slash seg sl ns, path_tail)
      (ground (arith, drop_past dir slash seg, index_byte_absent colon seg nc))
