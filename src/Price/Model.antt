-- ===== src/Price/Model.antt =====
-- internal/price/price.go: model ids, and the patterns of the rate table that they match.
pub mod Match
use where_token.Base.{
  ℕ, zero, suc, ◌+◌, ◌-◌, Bool, true, false, not, ◌&&◌, ◌||◌, ◌==◌, Option, none, some, List, [],
  ◌∷◌, ◌++◌, if◌then◌else◌, ltb, leb, length, drop, get_elem?, any_of, map,
}
use where_token.Base.Text.{Text, bytes, text_eq, is_empty, has_prefix, last_index, trim_space}
use where_token.Base.Decimal.{is_digit}
use where_token.Base.Dict.{member}

-- strings.Index(s, p); `none` is -1
unfoldable pub index_of : Text → Text → Option ℕ
index_of p [] = if is_empty p then some 0 else none
index_of p (c ∷ s) =
    let rest = index_of p s in
    if has_prefix (c ∷ s) p then some 0 else elim rest [ none ↦ none | some i ↦ some (suc i) ]

-- canon[i], where the code has made sure of the bounds
abbrev pub byte_or : ℕ → Option ℕ → ℕ
byte_or d none = d
byte_or d (some c) = c

abbrev pub is_part_mark : ℕ → Bool
is_part_mark c = c == b'-' || c == b'.'

-- `leftBoundaryOK`
unfoldable pub left_boundary_ok : Text → ℕ → Text → Bool
left_boundary_ok canon at pattern =
    let c = byte_or 0 (get_elem? canon (at - 1)) in
    if at == 0
    then true
    else if c == b'/'
    then true
    else if not (c == b'-')
    then false
    else any_of is_part_mark pattern

-- `rightBoundaryOK`
unfoldable pub right_boundary_ok : Text → ℕ → Bool
right_boundary_ok canon after =
    let c = byte_or 0 (get_elem? canon after) in
    if leb (length canon) after
    then true
    else not (c == b'.') && not (c == b'-') && (ltb c b'0' || ltb b'9' c)

abbrev pub both_boundaries : Text → Text → ℕ → Bool
both_boundaries canon pattern at =
    left_boundary_ok canon at pattern && right_boundary_ok canon (at + length pattern)

-- the loop of `matchModel`, for at most `fuel` runs
unfoldable pub match_from : ℕ → Text → Text → ℕ → Bool
match_from zero canon pattern start = false
match_from (suc fuel) canon pattern start =
    if ltb (length canon) start then false else elim (index_of pattern (drop start canon)) [
      | none ↦ false
      | some i ↦
          let rest = match_from fuel canon pattern (suc (start + i)) in
          if both_boundaries canon pattern (start + i) then true else rest
    ]

-- `matchModel`; a run of the loop raises `start`, so that there are at most len(canon) + 1
unfoldable pub match_model : Text → Text → Bool
match_model canon pattern =
    if text_eq pattern (bytes "*")
    then true
    else if text_eq canon pattern
    then true
    else match_from (suc (length canon)) canon pattern 0

-- strings.ToLower, on ASCII bytes
abbrev pub to_lower : Text → Text
to_lower = map (λ c. if leb b'A' c && leb c b'Z' then c + 32 else c)

-- `foldVersionDots`, after the byte `prev`
unfoldable pub fold_after : ℕ → Text → Text
fold_after prev [] = []
fold_after prev (c ∷ []) = c ∷ []
fold_after prev (c ∷ d ∷ s) =
    let b = if c == b'-' && is_digit prev && is_digit d then b'.' else c in b ∷ fold_after b (d ∷ s)

unfoldable pub fold_version_dots : Text → Text
fold_version_dots [] = []
fold_version_dots (c ∷ s) = c ∷ fold_after c s

abbrev pub after_index : Text → Option ℕ → Text
after_index s none = s
after_index s (some i) = drop (suc i) s

-- `Canonical`
unfoldable pub canonical : Text → Text
canonical model =
    let s = to_lower (trim_space model) in
    let s = after_index s (last_index (λ c. c == b'/') s) in
    fold_version_dots (map (λ c. if c == b'_' then b'-' else c) s)

abbrev push_byte : ℕ → List Text → List Text
push_byte c [] = (c ∷ []) ∷ []
push_byte c (part ∷ parts) = (c ∷ part) ∷ parts

-- strings.Split(s, string(b))
unfoldable pub split_on : ℕ → Text → List Text
split_on b [] = [] ∷ []
split_on b (c ∷ s) = let rest = split_on b s in if c == b then [] ∷ rest else push_byte c rest

-- `claudeFamily`
abbrev pub claude_family : List Text
claude_family = bytes "opus" ∷ bytes "sonnet" ∷ bytes "haiku" ∷ bytes "fable" ∷ bytes "mythos" ∷ []

-- `effortSuffix`
abbrev pub effort_suffix : List Text
effort_suffix =
    bytes "high" ∷ bytes "low" ∷ bytes "medium" ∷ bytes "minimal" ∷ bytes "thinking" ∷ []

unfoldable pub is_number : Text → Bool
is_number part = not (is_empty part) && not (any_of (λ c. not (is_digit c)) part)

-- `versionToken`; the parts of a token that `modelVersionRe` matches are one to three numbers
unfoldable pub version_token : Text → Text
version_token tok =
    let is_version = not (any_of (λ part. not (is_number part)) (split_on b'.' tok)) in
    if is_version then version_of (split_on b'.' tok) else []
  where
    version_of : List Text → Text
    version_of (a ∷ []) = tok
    version_of (a ∷ b ∷ []) = tok
    version_of (a ∷ b ∷ c ∷ []) = a ++ (b'.' ∷ b)
    version_of _ = []

-- the first token that is a family, and the first version that a token carries
unfoldable pub family_of : List Text → Text
family_of [] = []
family_of (tok ∷ tokens) =
    let rest = family_of tokens in if member tok claude_family then tok else rest

unfoldable pub version_in : List Text → Text
version_in [] = []
version_in (tok ∷ tokens) =
    let rest = version_in tokens in if is_empty (version_token tok) then rest else version_token tok

unfoldable pub take_text : ℕ → Text → Text
take_text zero s = []
take_text (suc n) [] = []
take_text (suc n) (c ∷ s) = c ∷ take_text n s

abbrev drop_effort_at : Text → Option ℕ → Text
drop_effort_at canon none = canon
drop_effort_at canon (some i) =
    if member (drop (suc i) canon) effort_suffix && any_of is_digit (take_text i canon)
    then take_text i canon
    else canon

-- the last step of `Normalize`
unfoldable pub drop_effort : Text → Text
drop_effort canon = drop_effort_at canon (last_index (λ c. c == b'-') canon)

unfoldable pub claude_id : List Text → Option Text
claude_id [] = none
claude_id (head ∷ tokens) =
    let family = family_of tokens in
    let version = version_in tokens in
    if text_eq head (bytes "claude") && not (is_empty family) && not (is_empty version)
    then some (bytes "claude-" ++ family ++ (b'-' ∷ version))
    else none

-- `Normalize`, without the vendor, which it does not read
unfoldable pub normalize : Text → Text
normalize model =
    let canon = canonical model in
    elim (claude_id (split_on b'-' canon)) [ some id ↦ id | none ↦ drop_effort canon ]
