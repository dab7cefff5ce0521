-- ===== src/Tests/Rank.antt =====
-- The theorems on the community rank at concrete inputs.
use where_token.Base.{◌≡◌, refl, ◌<◌, arith, List, [], ◌∷◌}
use where_token.Base.Int.{ℤ, pos}
use where_token.Community.{better_than, competition_rank}
use where_token.Community.Laws.{competition_rank-lt}

abbrev scores : List ℤ
scores = pos 100 ∷ pos 100 ∷ pos 80 ∷ []

-- tied scores share the best rank, and the next rank skips
rank-scores : (competition_rank scores (pos 100)).0 ≡ 1
unfolding competition_rank better_than
rank-scores = refl

rank_after_tie : (competition_rank scores (pos 80)).0 ≡ 3
unfolding competition_rank better_than
rank_after_tie = refl

competition_rank-lt_example :
    (competition_rank scores (pos 100)).0 < (competition_rank scores (pos 80)).0
competition_rank-lt_example = competition_rank-lt scores (pos 80) (pos 100) 1 refl (omega arith)
