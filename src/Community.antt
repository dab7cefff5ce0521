-- ===== src/Community.antt =====
-- internal/community/rank.go: the place of one participant among the scores, and what of it is shown.
pub mod Laws
use where_token.Base.{
  ℕ, suc, ◌+◌, Bool, true, false, not, ◌||◌, List, [], ◌∷◌, ◌++◌, if◌then◌else◌, ltb, length,
}
use where_token.Base.Int.{ℤ, pos, ltb_ℤ, leb_ℤ}
use where_token.Base.Text.{Text, bytes}
use where_token.Base.Decimal.{format_int}

-- the Status constants; `other` holds any other string
pub data StandingStatus : Type 0 where
  ok unavailable not_ranked insufficient_participants opted_out : StandingStatus
  offline disabled no_usage service_unconfigured network_error : StandingStatus
  other : Text → StandingStatus

-- `shares` says that Percentile and TopShare are set, whose floats are not modelled; `unavailable_note`
-- says which of the two fixed notes stands there
pub record Standing : Type 0 where
  pub status : StandingStatus
  pub period : Text
  pub metric : Text
  pub rank : ℤ
  pub participants : ℤ
  pub shares : Bool
  pub display : Text
  pub unavailable_note : Bool
  pub self_reported : Bool

-- the loop of `CompetitionRank`
unfoldable pub better_than : List ℤ → ℤ → ℕ
better_than [] self = 0
better_than (v ∷ scores) self =
    let rest = better_than scores self in if ltb_ℤ self v then suc rest else rest

-- rank and n
unfoldable pub competition_rank : List ℤ → ℤ → ℕ × ℕ
competition_rank [] self = (0, 0)
competition_rank (v ∷ scores) self = (better_than (v ∷ scores) self + 1, length (v ∷ scores))

unfoldable pub format_display : ℤ → ℤ → Text
format_display rank n =
    if leb_ℤ rank (pos 0) || leb_ℤ n (pos 0)
    then []
    else b'#' ∷ (format_int rank ++ (bytes " / " ++ format_int n))

-- the standing before the status is looked at
abbrev pub standing_of : StandingStatus → Text → Text → ℤ → Standing
standing_of status period metric n = record {
  status = status;
  period = period;
  metric = metric;
  rank = pos 0;
  participants = if ltb_ℤ (pos 0) n then n else pos 0;
  shares = false;
  display = [];
  unavailable_note = false;
  self_reported = true;
}

-- the case of StatusOK
unfoldable pub ranked : Standing → ℤ → ℤ → ℤ → Standing
ranked st rank n min_n =
    if ltb_ℤ n min_n
    then record st { status = insufficient_participants; unavailable_note = true }
    else if leb_ℤ rank (pos 0)
    then record st { status = not_ranked }
    else record st { rank = rank; display = format_display rank n; shares = true }

unfoldable pub finish_standing : StandingStatus → Text → Text → ℤ → ℤ → ℤ → Standing
finish_standing status period metric rank n min_n =
    let st = standing_of status period metric n in
    elim status [
      | ok ↦ ranked st rank n min_n
      | insufficient_participants ↦ record st { unavailable_note = true }
      | _ ↦ st
    ]
