-- ===== src/Price/Model/Match.antt =====
-- The loop of matchModel finds every place where a pattern stands between its boundaries.
use where_token.Base.{
  ℕ, zero, suc, ◌+◌, ◌-◌, ◌≤◌, ◌<◌, ◌≡◌, refl, sym, ◌≢◌, ◌↔◌, ◌∙◌, ap, true, some, [], ◌∷◌, arith,
  if◌then◌else◌, length, drop, inl, inr, Bool-cases, Option-cases, ◌⊎◌,
}
use mathlib.Core.Bool.{true≢false}
use where_token.Base.Text.{Text, bytes, text_eq, text_eq_iff, has_prefix}
use where_token.Price.Model.{index_of, both_boundaries, match_from, match_model}

-- the pattern stands at a place of the id, between its boundaries
abbrev pub OccursAt : Text → Text → ℕ → Type 0
OccursAt canon pattern at =
    (at ≤ length canon)
    × (has_prefix (drop at canon) pattern ≡ true)
    × (both_boundaries canon pattern at ≡ true)

index_of-least :
    (p s : Text) (k : ℕ)
    → k ≤ length s
    → has_prefix (drop k s) p ≡ true
    → (i : ℕ) × (index_of p s ≡ some i) × (i ≤ k)
unfolding index_of has_prefix
index_of-least [] [] k h found = (0, refl, omega arith)
index_of-least (b ∷ p) [] zero h found = ground arith
index_of-least p [] (suc k) h found = ground arith
index_of-least p (c ∷ s) zero h found = (0, rw (found, if◌then◌else◌) refl, omega arith)
index_of-least p (c ∷ s) (suc k) h found = elim (Bool-cases (has_prefix (c ∷ s) p)) [
  | inl here ↦ (0, rw (here, if◌then◌else◌) refl, omega arith)
  | inr away ↦
      let (i, e, le) = index_of-least p s k (omega (arith, h)) found in
      (suc i, rw (away, e, if◌then◌else◌) refl, omega (arith, le))
]

index_of-prefix :
    (p s : Text) (i : ℕ) → index_of p s ≡ some i → (has_prefix (drop i s) p ≡ true) × (i ≤ length s)
unfolding index_of has_prefix
index_of-prefix [] [] i e = ground arith
index_of-prefix (b ∷ p) [] i e = ground arith
index_of-prefix p (c ∷ s) i e = elim (Bool-cases (has_prefix (c ∷ s) p)) [
  | inl here ↦ ground arith
  | inr away ↦ elim (Option-cases (index_of p s)) [
    | inl none_there ↦ ground arith
    | inr (j, there) ↦ ground (arith, index_of-prefix p s j there)
  ]
]

abbrev nothing : Text
nothing = []

drop-nil : (n : ℕ) → drop n nothing ≡ []
drop-nil zero = refl
drop-nil (suc n) = refl

drop-drop : (m n : ℕ) (s : Text) → drop m (drop n s) ≡ drop (n + m) s
drop-drop m zero s = ap (λ k. drop k s) (omega arith)
drop-drop m (suc n) [] = drop-nil m ∙ sym (drop-nil (suc n + m))
drop-drop m (suc n) (c ∷ s) =
    drop-drop m n s ∙ ap (λ k. drop k (c ∷ s)) (let e : suc (n + m) ≡ suc n + m = omega arith in e)

length-drop : (n : ℕ) (s : Text) → length (drop n s) ≡ length s - n
length-drop zero s = omega arith
length-drop (suc n) [] = omega arith
length-drop (suc n) (c ∷ s) = omega (arith, length-drop n s)

match_from-OccursAt :
    (fuel : ℕ) (canon pattern : Text) (start : ℕ)
    → match_from fuel canon pattern start ≡ true
    → (at : ℕ) × OccursAt canon pattern at
unfolding match_from
match_from-OccursAt zero canon pattern start h = ground arith
match_from-OccursAt (suc fuel) canon pattern start h =
    elim (Option-cases (index_of pattern (drop start canon))) [
      | inl missing ↦ ground arith
      | inr (i, there) ↦ elim (Bool-cases (both_boundaries canon pattern (start + i))) [
        | inl good ↦
            let (found, inside) = index_of-prefix pattern (drop start canon) i there in
            let short : start ≤ length canon = ground (arith, there) in
            (
              start + i,
              (
                omega (arith, inside, short, length-drop start canon),
                rw (sym (drop-drop i start canon)) found,
                good,
              ),
            )
        | inr bad ↦
            match_from-OccursAt fuel canon pattern (suc (start + i)) (ground (arith, there, bad))
      ]
    ]

match_from_of_OccursAt :
    (fuel : ℕ) (canon pattern : Text) (start at : ℕ)
    → start ≤ at
    → length canon < fuel + start
    → OccursAt canon pattern at
    → match_from fuel canon pattern start ≡ true
unfolding match_from
match_from_of_OccursAt zero canon pattern start at le enough h = ground arith
match_from_of_OccursAt (suc fuel) canon pattern start at le enough (inside, found, good) =
    let gap : start + (at - start) ≡ at = omega (arith, le) in
    let (i, there, near) =
      index_of-least pattern (drop start canon) (at - start)
        (omega (arith, le, inside, length-drop start canon))
        (rw (drop-drop (at - start) start canon, gap) found) in
    elim (Bool-cases (both_boundaries canon pattern (start + i))) [
      | inl here ↦ ground (arith, there, here, le, inside)
      | inr bad ↦
          let away : start + i ≢ at =
            λ e. true≢false (sym good ∙ sym (ap (both_boundaries canon pattern) e) ∙ bad) in
          ground (
            arith,
            there,
            bad,
            le,
            inside,
            match_from_of_OccursAt fuel canon pattern (suc (start + i)) at
                (omega (arith, near, le, away)) (omega (arith, enough)) (inside, found, good),
          )
    ]

-- matchModel accepts an id exactly where the pattern is the star or the id, or stands somewhere in
-- the id between its boundaries: the loop ends, and it passes over no place.
pub match_model-OccursAt :
    (canon pattern : Text)
    → (match_model canon pattern ≡ true)
      ↔ ((pattern ≡ bytes "*") ⊎ (canon ≡ pattern) ⊎ ((at : ℕ) × OccursAt canon pattern at))
unfolding match_model
match_model-OccursAt canon pattern =
    let fuel = suc (length canon) in
    (
      λ h. elim (Bool-cases (text_eq pattern (bytes "*"))) [
        | inl star ↦ inl ((text_eq_iff pattern (bytes "*")).0 star)
        | inr away ↦ elim (Bool-cases (text_eq canon pattern)) [
          | inl same ↦ inr (inl ((text_eq_iff canon pattern).0 same))
          | inr other ↦
              inr (inr (match_from-OccursAt fuel canon pattern 0 (ground (arith, away, other))))
        ]
      ],
      λ h. elim h [
        | inl star ↦ rw ((text_eq_iff pattern (bytes "*")).1 star, if◌then◌else◌) refl
        | inr (inl same) ↦ ground (arith, (text_eq_iff canon pattern).1 same)
        | inr (inr (at, occurs)) ↦ ground (
          arith,
          match_from_of_OccursAt fuel canon pattern 0 at (omega arith) (omega arith) occurs,
        )
      ],
    )
