-- ===== src/Profile/Calendar.antt =====
-- What internal/publicprofile uses of Go's time package: dates written 2006-01-02, and the civil
-- date of an instant. An instant is in nanoseconds since the zero Time, the start of year 1.
use where_token.Base.{
  ℕ, zero, suc, ◌+◌, ◌-◌, ◌*◌, ◌/◌, ◌%◌, Bool, false, not, ◌&&◌, ◌||◌, Option, none, some, [], ◌∷◌,
  if◌then◌else◌, ltb, leb, ◌==◌,
}
use where_token.Base.Int.{ℤ, pos, negsuc, pos_part, ◌+ℤ◌}
use where_token.Base.Text.{Text}
use where_token.Base.Decimal.{is_digit}

pub record Date : Type 0 where
  pub year : ℕ
  pub month : ℕ
  pub day : ℕ

abbrev pub is_leap : ℕ → Bool
is_leap y = (y % 4 == 0) && (not (y % 100 == 0) || (y % 400 == 0))

-- the days of a month; 0 where there is no such month
unfoldable pub days_in : ℕ → ℕ → ℕ
days_in m y =
    if m == 2
    then if is_leap y then 29 else 28
    else if m == 4 || m == 6 || m == 9 || m == 11
    then 30
    else if leb 1 m && leb m 12
    then 31
    else 0

abbrev pub two_digits : ℕ → ℕ → ℕ
two_digits a b = (a - b'0') * 10 + (b - b'0')

abbrev pub checked : Date → Option Date
checked d = if leb 1 d.day && leb d.day (days_in d.month d.year) then some d else none

-- time.Parse("2006-01-02", s)
unfoldable pub parse_date : Text → Option Date
parse_date (a ∷ b ∷ c ∷ d ∷ s ∷ m ∷ n ∷ t ∷ x ∷ y ∷ []) =
    if is_digit a
      && is_digit b
      && is_digit c
      && is_digit d
      && s == b'-'
      && is_digit m
      && is_digit n
      && t == b'-'
      && is_digit x
      && is_digit y
    then checked (record {
      year = two_digits a b * 100 + two_digits c d;
      month = two_digits m n;
      day = two_digits x y;
    })
    else none
parse_date _ = none

-- n.Before(p)
abbrev pub before : Date → Date → Bool
before n p =
    if n.year == p.year
    then if n.month == p.month then ltb n.day p.day else ltb n.month p.month
    else ltb n.year p.year

abbrev pub both_before : Option Date → Option Date → Bool
both_before (some n) (some p) = before n p
both_before _ _ = false

-- nanoseconds of a minute, an hour and a day
abbrev pub minute : ℕ
minute = 60000000000

abbrev pub hour : ℕ
hour = 3600000000000

abbrev pub day_length : ℕ
day_length = 86400000000000

-- a time.Time in a fixed zone: the instant and the minutes of the zone east of UTC
pub record Time : Type 0 where
  pub instant : ℕ
  pub zone : ℤ

-- minutes as nanoseconds
abbrev pub of_minutes : ℤ → ℤ
of_minutes (pos n) = pos (n * minute)
of_minutes (negsuc n) = negsuc (n * minute + (minute - 1))

-- nanoseconds on the wall clock; an instant before year 1 there is not modelled
unfoldable pub wall : Time → ℕ
wall t = pos_part (pos t.instant +ℤ of_minutes t.zone)

unfoldable pub is_zero : Time → Bool
is_zero t = t.instant == 0

-- the year and the day of the year, from the days since the start of year 1
unfoldable pub year_of : ℕ → ℕ × ℕ
year_of n =
    let a = n / 146097 in
    let n4 = n % 146097 in
    let b = if leb 4 (n4 / 36524) then 3 else n4 / 36524 in
    let n3 = n4 - b * 36524 in
    let c = n3 / 1461 in
    let n2 = n3 % 1461 in
    let d = if leb 4 (n2 / 365) then 3 else n2 / 365 in
    (a * 400 + b * 100 + c * 4 + d + 1, n2 - d * 365)

-- the date `left` days after the first of a month, `fuel` months at most before the last
unfoldable pub month_from : ℕ → ℕ → ℕ → ℕ → Date
month_from zero y m left = record { year = y; month = m; day = suc left }
month_from (suc fuel) y m left =
    let rest = month_from fuel y (suc m) (left - days_in m y) in
    if ltb left (days_in m y) then record { year = y; month = m; day = suc left } else rest

unfoldable pub date_of : Time → Date
date_of t = let (y, left) = year_of (wall t / day_length) in month_from 11 y 1 left

abbrev pub digit : ℕ → ℕ
digit n = b'0' + n % 10

-- t.Format("2006-01-02"), for a year below 10000
unfoldable pub format_date : Date → Text
format_date d =
    digit (d.year / 1000)
    ∷ digit (d.year / 100)
    ∷ digit (d.year / 10)
    ∷ digit d.year
    ∷ b'-'
    ∷ digit (d.month / 10)
    ∷ digit d.month
    ∷ b'-'
    ∷ digit (d.day / 10)
    ∷ digit d.day
    ∷ []

-- the next midnight of the wall clock: what remains until it, and its instant
abbrev pub remaining : Time → ℕ
remaining t = day_length - wall t % day_length
