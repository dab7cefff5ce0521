-- ===== src/Community/Laws.antt =====
-- What a rank is, and when it is shown (internal/community/rank.go).
use where_token.Base.{
  ℕ, zero, suc, ◌≤◌, ◌<◌, ◌≡◌, arith, Bool, false, not, ◌&&◌, List, [], ◌∷◌, if◌then◌else◌, length,
  get_elem?, some,
}
use where_token.Base.Int.{ℤ, pos, ltb_ℤ, ◌≤ℤ◌, ◌<ℤ◌}
use where_token.Base.Text.{Text}
use where_token.Community.{
  StandingStatus, better_than, competition_rank, format_display, ranked, finish_standing,
}

better_than-le : (scores : List ℤ) (a b : ℤ) → a ≤ℤ b → better_than scores b ≤ better_than scores a
unfolding better_than
better_than-le [] a b h = omega arith
better_than-le (v ∷ scores) a b h = ground (arith, better_than-le scores a b h)

better_than-lt :
    (scores : List ℤ) (a b : ℤ) (i : ℕ)
    → get_elem? scores i ≡ some b
    → a <ℤ b
    → better_than scores b < better_than scores a
unfolding better_than
better_than-lt [] a b i at h = cc
better_than-lt (v ∷ scores) a b zero at h = ground (arith, at, better_than-le scores a b)
better_than-lt (v ∷ scores) a b (suc i) at h = ground (arith, better_than-lt scores a b i at h)

better_than-length :
    (scores : List ℤ) (i : ℕ) (self : ℤ)
    → get_elem? scores i ≡ some self
    → better_than scores self < length scores
unfolding better_than
better_than-length [] i self at = cc
better_than-length (v ∷ scores) zero self at = ground (arith, at, better_than-all scores self)
  where
    better_than-all : (s : List ℤ) (x : ℤ) → better_than s x ≤ length s
    better_than-all [] x = omega arith
    better_than-all (w ∷ s) x = ground (arith, better_than-all s x)
better_than-length (v ∷ scores) (suc i) self at =
    ground (arith, better_than-length scores i self at)

-- A score of the list that is higher than another score has a strictly lower rank.
pub competition_rank-lt :
    (scores : List ℤ) (a b : ℤ) (i : ℕ)
    → get_elem? scores i ≡ some b
    → a <ℤ b
    → (competition_rank scores b).0 < (competition_rank scores a).0
unfolding competition_rank
competition_rank-lt [] a b i at h = cc
competition_rank-lt (v ∷ scores) a b i at h = omega (arith, better_than-lt (v ∷ scores) a b i at h)

-- The rank of a score of the list lies between 1 and the number of participants.
pub competition_rank-range :
    (scores : List ℤ) (self : ℤ) (i : ℕ)
    → get_elem? scores i ≡ some self
    → (1 ≤ (competition_rank scores self).0)
      × ((competition_rank scores self).0 ≤ (competition_rank scores self).1)
unfolding competition_rank
competition_rank-range [] self i at = cc
competition_rank-range (v ∷ scores) self i at =
    omega (arith, better_than-length (v ∷ scores) i self at)

-- the rank may be shown
abbrev pub shown : StandingStatus → ℤ → ℤ → ℤ → Bool
shown StandingStatus.ok rank n min_n = not (ltb_ℤ n min_n) && ltb_ℤ (pos 0) rank
shown _ rank n min_n = false

-- A standing has a rank, a display and shares exactly where its status is ok, there are enough
-- participants and the rank is positive.
pub finish_standing-shown :
    (status : StandingStatus) (period metric : Text) (rank n min_n : ℤ)
    → ((finish_standing status period metric rank n min_n).rank
        ≡ (if shown status rank n min_n then rank else pos 0))
      × ((finish_standing status period metric rank n min_n).display
          ≡ (if shown status rank n min_n then format_display rank n else []))
      × ((finish_standing status period metric rank n min_n).shares ≡ shown status rank n min_n)
unfolding finish_standing ranked
finish_standing-shown status period metric rank n min_n = (ground arith, ground arith, ground arith)
