-- ===== src/Base/Text.antt =====
-- Byte strings, and the functions of Go's `strings` and `strconv` that the program uses.
use where_token.Base.Lists.{any_of}
use where_token.Base.Test.{leb, ◌==◌, if◌then◌else◌}
use Prim.Native.Nat.{ℕ, suc}
use mathlib.Core.Path.{◌≡◌, refl}
use mathlib.Core.Logic.{◌↔◌}
use mathlib.Core.Bool.{Bool, true, false, ◌&&◌, ◌||◌}
use mathlib.Core.Option.{Option, none, some}
use mathlib.Core.List.{List, [], ◌∷◌, ◌++◌}
use native.Mathlib.Omega.{arith}
use Prim.Native.Char.{code}
use Prim.Native.String.{String}

abbrev pub Text : Type 0
Text = List ℕ

-- The bytes of an ASCII literal.
abbrev pub bytes : String → Text
bytes String.[] = []
bytes (String.◌∷◌ c s) = code c ∷ bytes s

-- s == t
unfoldable pub text_eq : Text → Text → Bool
text_eq [] [] = true
text_eq [] (_ ∷ _) = false
text_eq (_ ∷ _) [] = false
text_eq (a ∷ s) (b ∷ t) = a == b && text_eq s t

pub text_eq_iff : (s t : Text) → (text_eq s t ≡ true) ↔ (s ≡ t)
unfolding text_eq
text_eq_iff [] [] = ground arith
text_eq_iff [] (b ∷ t) = ground arith
text_eq_iff (a ∷ s) [] = ground arith
text_eq_iff (a ∷ s) (b ∷ t) = ground (arith, text_eq_iff s t)

pub text_eq_self : (s : Text) → text_eq s s ≡ true
text_eq_self s = (text_eq_iff s s).1 refl

-- s == ""
abbrev pub is_empty : Text → Bool
is_empty [] = true
is_empty (_ ∷ _) = false

-- strings.HasPrefix(s, prefix)
unfoldable pub has_prefix : Text → Text → Bool
has_prefix s [] = true
has_prefix [] (_ ∷ _) = false
has_prefix (a ∷ s) (b ∷ p) = a == b && has_prefix s p

pub has_prefix-append : (p s : Text) → has_prefix (p ++ s) p ≡ true
unfolding has_prefix
has_prefix-append [] s = refl
has_prefix-append (a ∷ p) s = ground (arith, has_prefix-append p s)

-- strings.LastIndexAny, over the bytes that pass a test; `none` is -1
unfoldable pub last_index : (ℕ → Bool) → Text → Option ℕ
last_index p [] = none
last_index p (c ∷ s) =
    let rest = last_index p s in
    elim rest [ some i ↦ some (suc i) | none ↦ if p c then some 0 else none ]

-- strings.IndexByte; `none` is -1
unfoldable pub index_byte : ℕ → Text → Option ℕ
index_byte b [] = none
index_byte b (c ∷ s) =
    let rest = index_byte b s in
    if c == b then some 0 else elim rest [ none ↦ none | some i ↦ some (suc i) ]

-- unicode.IsSpace on ASCII bytes
abbrev pub is_space : ℕ → Bool
is_space c = (leb 9 c && leb c 13) || c == 32

unfoldable pub trim_left : Text → Text
trim_left [] = []
trim_left (c ∷ s) = let rest = trim_left s in if is_space c then rest else c ∷ s

unfoldable pub trim_right : Text → Text
trim_right [] = []
trim_right (c ∷ s) = let rest = trim_right s in if is_empty rest && is_space c then [] else c ∷ rest

-- strings.TrimSpace
unfoldable pub trim_space : Text → Text
trim_space s = trim_left (trim_right s)

trim_left_clean : (s : Text) → any_of is_space s ≡ false → trim_left s ≡ s
unfolding trim_left any_of
trim_left_clean [] h = refl
trim_left_clean (c ∷ s) h = ground (arith, trim_left_clean s)

trim_right_clean : (s : Text) → any_of is_space s ≡ false → trim_right s ≡ s
unfolding trim_right any_of
trim_right_clean [] h = refl
trim_right_clean (c ∷ s) h = ground (arith, trim_right_clean s)

pub trim_space_clean : (s : Text) → any_of is_space s ≡ false → trim_space s ≡ s
unfolding trim_space
trim_space_clean s h = rw (trim_right_clean s h) (trim_left_clean s h)

trim_left_idem : (s : Text) → trim_left (trim_left s) ≡ trim_left s
unfolding trim_left
trim_left_idem [] = refl
trim_left_idem (c ∷ s) = ground (arith, trim_left_idem s)

trim_right_idem : (s : Text) → trim_right (trim_right s) ≡ trim_right s
unfolding trim_right
trim_right_idem [] = refl
trim_right_idem (c ∷ s) = ground (arith, trim_right_idem s)

trim_left_right : (s : Text) → trim_right (trim_left s) ≡ trim_left (trim_right s)
unfolding trim_left trim_right
trim_left_right [] = refl
trim_left_right (c ∷ s) = ground (arith, trim_left_right s)

pub trim_space_idem : (s : Text) → trim_space (trim_space s) ≡ trim_space s
unfolding trim_space
trim_space_idem s =
    ground (arith, trim_left_right (trim_right s), trim_right_idem s, trim_left_idem (trim_right s))
