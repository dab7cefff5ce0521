-- ===== src/Fuzzy/Laws.antt =====
-- The table of `Distance` holds the recursive edit distance (internal/fuzzy/levenshtein.go).
use where_token.Base.{
  ℕ, zero, suc, ◌+◌, ◌≤◌, ◌≡◌, refl, sym, ◌∙◌, ap, arith, ◌⊎◌, inl, inr, true, false, List, [], ◌∷◌,
  ltb, leb, length, get_elem?, some, Bool-cases,
}
use where_token.Base.Int.{pos}
use where_token.Base.Text.{is_empty}
use where_token.Fuzzy.{
  min3, cost, fill, rows_from, first_row, last_of, distance, closest_from, closest, within,
}

-- The least number of insertions, deletions and substitutions, from the ends of both lists.
unfoldable pub edits : List ℕ → List ℕ → ℕ
edits [] b = length b
edits (x ∷ a) [] = suc (length a)
edits (x ∷ a) (y ∷ b) = min3 (edits a (y ∷ b) + 1) (edits (x ∷ a) b + 1) (edits a b + cost x y)

-- the reverse of a list in front of another
unfoldable pub onto : List ℕ → List ℕ → List ℕ
onto [] t = t
onto (x ∷ s) t = onto s (x ∷ t)

-- the row for a reversed prefix `a`, from the reversed prefix `b` on
unfoldable row : List ℕ → List ℕ → List ℕ → List ℕ
row a t [] = edits a t ∷ []
row a t (d ∷ b) = edits a t ∷ row a (d ∷ t) b

row-fill :
    (c : ℕ) (a t b : List ℕ)
    → edits (c ∷ a) t ∷ fill c b (row a t b) (edits (c ∷ a) t) ≡ row (c ∷ a) t b
unfolding row fill edits
row-fill c a t [] = refl
row-fill c a t (d ∷ []) = refl
row-fill c a t (d ∷ e ∷ b) = ap (λ r. edits (c ∷ a) t ∷ r) (row-fill c a (d ∷ t) (e ∷ b))

first_row-row : (t b : List ℕ) → first_row (length t) b ≡ row [] t b
unfolding first_row row edits
first_row-row t [] = refl
first_row-row t (d ∷ b) = ap (λ r. length t ∷ r) (first_row-row (d ∷ t) b)

edits_nil : (c : ℕ) (a : List ℕ) → edits (c ∷ a) [] ≡ suc (length a)
unfolding edits
edits_nil c a = refl

rows_from-row : (a r b : List ℕ) → rows_from (suc (length r)) a b (row r [] b) ≡ row (onto a r) [] b
unfolding rows_from onto
rows_from-row [] r b = refl
rows_from-row (c ∷ a) r b =
    ap (rows_from (suc (suc (length r))) a b)
      (ap (λ z. z ∷ fill c b (row r [] b) z) (sym (edits_nil c r)) ∙ row-fill c r [] b)
    ∙ rows_from-row a (c ∷ r) b

row-last_of : (a t b : List ℕ) → last_of (row a t b) ≡ edits a (onto b t)
unfolding row last_of onto
row-last_of a t [] = refl
row-last_of a t (d ∷ []) = refl
row-last_of a t (d ∷ e ∷ b) = row-last_of a (d ∷ t) (e ∷ b)

length-onto : (s t : List ℕ) → length (onto s t) ≡ length s + length t
unfolding onto
length-onto [] t = omega arith
length-onto (x ∷ s) t = omega (arith, length-onto s (x ∷ t))

edits_right_nil : (a : List ℕ) → edits a [] ≡ length a
unfolding edits
edits_right_nil [] = refl
edits_right_nil (x ∷ a) = refl

edits_left_nil : (b : List ℕ) → edits [] b ≡ length b
unfolding edits
edits_left_nil b = refl

-- `Distance` of two names is the recursive edit distance of the names read from their ends.
pub distance-edits : (a b : List ℕ) → distance a b ≡ edits (onto a []) (onto b [])
unfolding distance
distance-edits [] b = omega (arith, edits_left_nil (onto b []), length-onto b [], nothing)
  where
    nothing : edits (onto [] []) (onto b []) ≡ edits [] (onto b [])
    nothing = unfold onto in refl
distance-edits (x ∷ a) [] =
    omega (arith, edits_right_nil (onto (x ∷ a) []), length-onto (x ∷ a) [], nothing)
  where
    nothing : edits (onto (x ∷ a) []) (onto [] []) ≡ edits (onto (x ∷ a) []) []
    nothing = unfold onto in refl
distance-edits (x ∷ a) (y ∷ b) =
    ap (λ r. last_of (rows_from 1 (x ∷ a) (y ∷ b) r)) (first_row-row [] (y ∷ b))
    ∙ ap last_of (rows_from-row (x ∷ a) [] (y ∷ b))
    ∙ row-last_of (onto (x ∷ a) []) [] (y ∷ b)

closest_from-le :
    (want best : List ℕ) (d : ℕ) (names : List (List ℕ)) → (closest_from want best d names).1 ≤ d
unfolding closest_from
closest_from-le want best d [] = omega arith
closest_from-le want best d (n ∷ names) =
    ground
      (arith, closest_from-le want best d names, closest_from-le want n (distance want n) names)

closest_from-least :
    (want best : List ℕ) (d : ℕ) (names : List (List ℕ)) (i : ℕ) (name : List ℕ)
    → get_elem? names i ≡ some name
    → is_empty name ≡ false
    → (closest_from want best d names).1 ≤ distance want name
unfolding closest_from
closest_from-least want best d [] i name at h = cc
closest_from-least want best d (n ∷ names) zero name at h =
    ground
      (arith, at, closest_from-le want best d names, closest_from-le want n (distance want n) names)
closest_from-least want best d (n ∷ names) (suc i) name at h = ground (
  arith,
  closest_from-least want best d names i name at h,
  closest_from-least want n (distance want n) names i name at h,
)

-- Either nothing was nearer, or the name is one whose distance is the least that was found.
abbrev IsAttained : List ℕ → List ℕ → ℕ → List ℕ × ℕ → Type 0
IsAttained want best d (name, least) = ((least ≡ d) × (name ≡ best)) ⊎ (least ≡ distance want name)

IsAttained-take :
    (want best n : List ℕ) (d : ℕ) (r : List ℕ × ℕ)
    → IsAttained want n (distance want n) r
    → IsAttained want best d r
IsAttained-take want best n d (name, least) (inl (e, f)) = inr (e ∙ ap (distance want) (sym f))
IsAttained-take want best n d (name, least) (inr e) = inr e

closest_from-IsAttained :
    (want best : List ℕ) (d : ℕ) (names : List (List ℕ))
    → IsAttained want best d (closest_from want best d names)
unfolding closest_from
closest_from-IsAttained want best d [] = inl (refl, refl)
closest_from-IsAttained want best d (n ∷ names) = elim (Bool-cases (is_empty n)) [
  | inl unnamed ↦ rw unnamed (closest_from-IsAttained want best d names)
  | inr named ↦ elim (Bool-cases (ltb (distance want n) d)) [
    | inl nearer ↦
        rw (named, nearer)
          (IsAttained-take want best n d (closest_from want n (distance want n) names)
            (closest_from-IsAttained want n (distance want n) names))
    | inr further ↦ rw (named, further) (closest_from-IsAttained want best d names)
  ]
]

within-least :
    (want : List ℕ) (m e : ℕ) (r : List ℕ × ℕ)
    → IsAttained want [] (suc m) r
    → r.1 ≤ e
    → e ≤ m
    → distance want (within r m) ≤ e
within-least want m e (name, least) (inl (f, g)) h k = omega (arith, f, h, k)
within-least want m e (name, least) (inr f) h k =
    let near : leb least m ≡ true = ground (arith, h, k) in rw near (omega (arith, f, h))

-- Either nothing was nearer, or the name is one of the names, and not empty.
IsListed : List ℕ → ℕ → List (List ℕ) → List ℕ × ℕ → Type 0
IsListed best d names (name, least) =
    ((least ≡ d) × (name ≡ best))
    ⊎ ((j : ℕ) × (get_elem? names j ≡ some name) × (is_empty name ≡ false))

IsListed-skip :
    (best n : List ℕ) (d : ℕ) (names : List (List ℕ)) (r : List ℕ × ℕ)
    → IsListed best d names r
    → IsListed best d (n ∷ names) r
unfolding IsListed
IsListed-skip best n d names (name, least) (inl e) = inl e
IsListed-skip best n d names (name, least) (inr (j, at, h)) = inr (suc j, at, h)

IsListed-take :
    (best n : List ℕ) (d e : ℕ) (names : List (List ℕ)) (r : List ℕ × ℕ)
    → is_empty n ≡ false
    → IsListed n e names r
    → IsListed best d (n ∷ names) r
unfolding IsListed
IsListed-take best n d e names (name, least) h (inl (f, g)) =
    inr (zero, ap some (sym g), ap is_empty g ∙ h)
IsListed-take best n d e names (name, least) h (inr (j, at, k)) = inr (suc j, at, k)

closest_from-IsListed :
    (want best : List ℕ) (d : ℕ) (names : List (List ℕ))
    → IsListed best d names (closest_from want best d names)
unfolding closest_from IsListed
closest_from-IsListed want best d [] = inl (refl, refl)
closest_from-IsListed want best d (n ∷ names) =
    let skip =
      IsListed-skip best n d names (closest_from want best d names)
        (closest_from-IsListed want best d names) in
    let near = distance want n in
    elim (Bool-cases (is_empty n)) [
      | inl unnamed ↦ rw unnamed skip
      | inr named ↦ elim (Bool-cases (ltb near d)) [
        | inl nearer ↦
            rw (named, nearer)
              (IsListed-take best n d near names (closest_from want n near names) named
                (closest_from-IsListed want n near names))
        | inr further ↦ rw (named, further) skip
      ]
    ]

within-IsListed :
    (names : List (List ℕ)) (m : ℕ) (r : List ℕ × ℕ)
    → r.1 ≤ m
    → IsListed [] (suc m) names r
    → (j : ℕ) × (get_elem? names j ≡ some (within r m)) × (is_empty (within r m) ≡ false)
unfolding IsListed
within-IsListed names m (name, least) near (inl (e, f)) = absurd (omega (arith, near, e))
within-IsListed names m (name, least) near (inr listed) =
    let small : leb least m ≡ true = ground (arith, near) in rw small listed

-- Where some name is within the given distance, `Closest` gives one of the names, which is not empty
-- and at most as far.
pub closest-least :
    (want : List ℕ) (names : List (List ℕ)) (max_dist i : ℕ) (name : List ℕ)
    → is_empty want ≡ false
    → get_elem? names i ≡ some name
    → is_empty name ≡ false
    → distance want name ≤ max_dist
    → let best = closest want names (pos max_dist) in
      ((j : ℕ) × (get_elem? names j ≡ some best) × (is_empty best ≡ false))
      × (distance want best ≤ distance want name)
unfolding closest
closest-least want names max_dist i name asked at named near =
    let found = closest_from want [] (suc max_dist) names in
    let least = closest_from-least want [] (suc max_dist) names i name at named in
    let attained = closest_from-IsAttained want [] (suc max_dist) names in
    rw asked (
      within-IsListed names max_dist found (omega (arith, least, near))
          (closest_from-IsListed want [] (suc max_dist) names),
      within-least want max_dist (distance want name) found attained least near,
    )
