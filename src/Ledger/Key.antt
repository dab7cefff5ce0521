-- ===== src/Ledger/Key.antt =====
-- internal/ledger/key.go, and `splitKey` of internal/ledger/ledger.go: the durable identity of one
-- usage fact. Texts are byte strings, as in Go; 0x1f is the separator of the parts of a key.
pub mod Laws
use where_token.Base.{
  ℕ, suc, ◌-◌, Bool, true, false, not, ◌&&◌, ◌||◌, Option, none, some, List, [], ◌∷◌, ◌++◌, ltb,
  ◌==◌, if◌then◌else◌, length, drop, any_of,
}
use where_token.Base.Text.{Text, is_empty, has_prefix, last_index, index_byte}
use where_token.Event.{UsageEvent, is_provider_api, is_retained}

abbrev pub separator : ℕ
separator = 0x1f

abbrev pub colon : ℕ
colon = b':'

-- the bytes of `/\`
abbrev pub is_slash : ℕ → Bool
is_slash c = c == b'/' || c == 0x5c

abbrev pub is_separator : ℕ → Bool
is_separator c = c == separator

-- the part of `pathTail` after the colon of the last path segment is known
unfoldable pub after_colon : Text → ℕ → Option Text
after_colon seg at =
    if at == 0 || at == length seg - 1
    then none
    else let tail = drop (suc at) seg in
      if is_empty tail || any_of is_slash tail then none else some tail

unfoldable pub segment_tail : Text → Option Text
segment_tail seg = elim (index_byte colon seg) [ none ↦ none | some at ↦ after_colon seg at ]

-- `i` is an index into `request_id`, which is therefore not empty
unfoldable pub after_slash : Text → ℕ → Option Text
after_slash request_id i =
    if i == length request_id - 1 then none else segment_tail (drop (suc i) request_id)

unfoldable pub path_tail : Text → Option Text
path_tail request_id = elim (last_index is_slash request_id) [
  | none ↦ none
  | some i ↦ after_slash request_id i
]

-- A fact that was merged back into a scan has its session in front of its request id.
unfoldable pub strip_session : Text → Text → Text
strip_session session_id req =
    if is_empty session_id
    then req
    else let prefix = session_id ++ separator ∷ [] in
      if has_prefix req prefix && ltb (length prefix) (length req) && not (any_of is_slash req)
      then drop (length prefix) req
      else req

unfoldable pub suffix_of : Text → Text → Option Text
suffix_of session_id req =
    if any_of is_slash req then if is_empty session_id then none else path_tail req else some req

abbrev pub join_key : Text → Text → Text → Text
join_key source session_id req = source ++ (separator ∷ (session_id ++ (separator ∷ req)))

abbrev pub join_suffix : UsageEvent → Option Text → Option Text
join_suffix e none = none
join_suffix e (some req) = some (join_key e.source e.session_id req)

-- `Key`; `none` is the result false
unfoldable pub key : UsageEvent → Option Text
key e =
    if is_provider_api e.derivation || is_retained e.derivation || e.skip_request
    then none
    else if is_empty e.source || is_empty e.request_id
    then none
    else join_suffix e (suffix_of e.session_id (strip_session e.session_id e.request_id))

abbrev pub push : ℕ → List Text → List Text
push c [] = (c ∷ []) ∷ []
push c (part ∷ parts) = (c ∷ part) ∷ parts

-- strings.Split(s, "\x1f")
unfoldable pub split_at_separator : Text → List Text
split_at_separator [] = [] ∷ []
split_at_separator (c ∷ s) =
    let rest = split_at_separator s in if is_separator c then [] ∷ rest else push c rest

abbrev pub three_parts : List Text → Option (Text × Text × Text)
three_parts (source ∷ session_id ∷ req ∷ []) =
    if is_empty source || is_empty req then none else some (source, session_id, req)
three_parts _ = none

-- `splitKey`; `none` is the result false, with three empty texts
unfoldable pub split_key : Text → Option (Text × Text × Text)
split_key id = three_parts (split_at_separator id)
