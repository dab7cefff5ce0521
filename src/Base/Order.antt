-- ===== src/Base/Order.antt =====
-- The byte order of Go's strings, and stable sorting by it (sort.Strings, ORDER BY).
use where_token.Base.Test.{ltb, if◌then◌else◌, Bool-cases}
use mathlib.Core.Logic.{inl, inr}
use where_token.Base.Lists.{All}
use where_token.Base.Text.{Text, text_eq}
use where_token.Base.Dict.{member}
use mathlib.Core.Path.{◌≡◌, refl, ap, ◌∙◌}
use mathlib.Core.Bool.{Bool, true, false, not, ◌||◌}
use mathlib.Core.List.{List, [], ◌∷◌, ◌++◌}
use native.Mathlib.Omega.{arith}

-- s <= t
unfoldable pub text_leb : Text → Text → Bool
text_leb [] t = true
text_leb (_ ∷ _) [] = false
text_leb (a ∷ s) (b ∷ t) =
    let rest = text_leb s t in if ltb a b then true else if ltb b a then false else rest

-- s < t
abbrev pub text_ltb : Text → Text → Bool
text_ltb s t = not (text_leb t s)

pub text_leb_refl : (s : Text) → text_leb s s ≡ true
unfolding text_leb
text_leb_refl [] = refl
text_leb_refl (a ∷ s) = ground (arith, text_leb_refl s)

pub text_leb_total : (s t : Text) → text_leb s t ≡ false → text_leb t s ≡ true
unfolding text_leb
text_leb_total [] t h = ground arith
text_leb_total (a ∷ s) [] h = refl
text_leb_total (a ∷ s) (b ∷ t) h = ground (arith, text_leb_total s t)

pub text_leb_trans :
    (s t u : Text) → text_leb s t ≡ true → text_leb t u ≡ true → text_leb s u ≡ true
unfolding text_leb
text_leb_trans [] t u h k = refl
text_leb_trans (a ∷ s) [] u h k = ground arith
text_leb_trans (a ∷ s) (b ∷ t) [] h k = ground arith
text_leb_trans (a ∷ s) (b ∷ t) (c ∷ u) h k = ground (arith, text_leb_trans s t u)

module _ {ℓ} {A : Type ℓ} (of : A → Text) where
  unfoldable pub insert_by : A → List A → List A
  insert_by x [] = x ∷ []
  insert_by x (y ∷ ys) =
      let rest = insert_by x ys in if text_leb (of x) (of y) then x ∷ y ∷ ys else y ∷ rest

  -- a stable sort by a text of the items
  unfoldable pub sort_by : List A → List A
  sort_by [] = []
  sort_by (x ∷ xs) = insert_by x (sort_by xs)

  insert_by-last :
      (x last : A) (xs : List A)
      → text_leb (of x) (of last) ≡ true
      → insert_by x (xs ++ (last ∷ [])) ≡ insert_by x xs ++ (last ∷ [])
  unfolding insert_by
  insert_by-last x last [] h = rw (h, if◌then◌else◌) refl
  insert_by-last x last (y ∷ ys) h = ground (arith, insert_by-last x last ys h)

  -- An item that is not below any other sorts to the end.
  pub sort_by-last :
      (xs : List A) (last : A)
      → All (λ x. text_leb (of x) (of last) ≡ true) xs
      → sort_by (xs ++ (last ∷ [])) ≡ sort_by xs ++ (last ∷ [])
  unfolding sort_by
  sort_by-last [] last hs = unfold insert_by in refl
  sort_by-last (x ∷ xs) last (h, hs) =
      ap (insert_by x) (sort_by-last xs last hs) ∙ insert_by-last x last (sort_by xs) h

-- sort.Strings
abbrev pub sort_texts : List Text → List Text
sort_texts = sort_by (λ s. s)

member-insert_by :
    (k s : Text) (ts : List Text) → member k (insert_by (λ t. t) s ts) ≡ text_eq s k || member k ts
unfolding insert_by member
member-insert_by k s [] = refl
member-insert_by k s (t ∷ ts) = ground (arith, member-insert_by k s ts)

pub member-sort_texts : (k : Text) (ts : List Text) → member k (sort_texts ts) ≡ member k ts
unfolding sort_by member
member-sort_texts k [] = refl
member-sort_texts k (t ∷ ts) =
    ground (arith, member-insert_by k t (sort_by (λ s. s) ts), member-sort_texts k ts)

module _ {ℓ κ} {A : Type ℓ} (of : A → Text) (P : A → Type κ) where
  All-insert_by : (x : A) (xs : List A) → P x → All P xs → All P (insert_by of x xs)
  unfolding insert_by
  All-insert_by x [] p hs = (p, tt)
  All-insert_by x (y ∷ ys) p (h, hs) = elim (Bool-cases (text_leb (of x) (of y))) [
    | inl e ↦ rw (e, if◌then◌else◌) (p, (h, hs))
    | inr e ↦ rw (e, if◌then◌else◌) (h, All-insert_by x ys p hs)
  ]

  pub All-sort_by : (xs : List A) → All P xs → All P (sort_by of xs)
  unfolding sort_by
  All-sort_by [] hs = tt
  All-sort_by (x ∷ xs) (h, hs) = All-insert_by x (sort_by of xs) h (All-sort_by xs hs)
