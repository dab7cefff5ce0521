-- ===== src/Fuzzy.antt =====
-- internal/fuzzy/levenshtein.go: the nearest name by edit distance. A name is the list of its code
-- points.
pub mod Laws
use where_token.Base.{
  ℕ, zero, suc, ◌+◌, Bool, true, false, List, [], ◌∷◌, if◌then◌else◌, ltb, leb, ◌==◌, length,
}
use where_token.Base.Int.{ℤ, pos, negsuc}
use where_token.Base.Text.{is_empty}

unfoldable pub min3 : ℕ → ℕ → ℕ → ℕ
min3 a b c = if ltb a b then if ltb a c then a else c else if ltb b c then b else c

abbrev pub cost : ℕ → ℕ → ℕ
cost c d = if c == d then 0 else 1

-- the inner loop, for one rune of `a`: the previous row from j - 1 on, and cur[j-1]
unfoldable pub fill : ℕ → List ℕ → List ℕ → ℕ → List ℕ
fill c [] prev left = []
fill c (d ∷ b) (diag ∷ up ∷ prev) left =
    let v = min3 (up + 1) (left + 1) (diag + cost c d) in
    let rest = fill c b (up ∷ prev) v in v ∷ rest
fill c (d ∷ b) _ left = []

-- the outer loop from row i on
unfoldable pub rows_from : ℕ → List ℕ → List ℕ → List ℕ → List ℕ
rows_from i [] b prev = prev
rows_from i (c ∷ a) b prev = rows_from (suc i) a b (i ∷ fill c b prev i)

-- 0 ∷ 1 ∷ …, one longer than `b`
unfoldable pub first_row : ℕ → List ℕ → List ℕ
first_row j [] = j ∷ []
first_row j (_ ∷ b) = j ∷ first_row (suc j) b

-- prev[len(br)]
unfoldable pub last_of : List ℕ → ℕ
last_of [] = 0
last_of (x ∷ []) = x
last_of (_ ∷ y ∷ xs) = last_of (y ∷ xs)

unfoldable pub distance : List ℕ → List ℕ → ℕ
distance a b =
    if is_empty a
    then length b
    else if is_empty b
    then length a
    else last_of (rows_from 1 a b (first_row 0 b))

-- the loop of `Closest`, from a best name and its distance
unfoldable pub closest_from : List ℕ → List ℕ → ℕ → List (List ℕ) → List ℕ × ℕ
closest_from want best best_d [] = (best, best_d)
closest_from want best best_d (n ∷ names) =
    let d = distance want n in
    let skip = closest_from want best best_d names in
    let take = closest_from want n d names in
    if is_empty n then skip else if ltb d best_d then take else skip

abbrev pub within : List ℕ × ℕ → ℕ → List ℕ
within (best, best_d) max_dist = if leb best_d max_dist then best else []

unfoldable pub closest : List ℕ → List (List ℕ) → ℤ → List ℕ
closest want names (negsuc _) = []
closest want names (pos max_dist) =
    if is_empty want then [] else within (closest_from want [] (suc max_dist) names) max_dist
