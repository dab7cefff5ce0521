-- ===== src/Event/Clock.antt =====
-- What internal/ledger uses of Go's time package: days of UTC, and RFC 3339 stamps.
use where_token.Base.{
  ℕ, zero, suc, ◌+◌, ◌-◌, ◌*◌, ◌/◌, ◌%◌, Bool, none, some, [], ◌∷◌, ◌++◌, if◌then◌else◌, ◌==◌,
}
use where_token.Base.Int.{pos, pos_part, ◌+ℤ◌, ◌-ℤ◌, eqb_ℤ}
use where_token.Base.Text.{Text}
use where_token.Event.{Time, zero_time}
use where_token.Profile.Calendar.{
  Date, parse_date, date_of, format_date, days_in, digit, day_length, hour, minute,
}
use where_token.Profile.Calendar

-- nanoseconds since the zero Time; an earlier time is not modelled
abbrev pub instant_of : Time → ℕ
instant_of t = pos_part (t +ℤ pos 62135596800000000000)

-- t.IsZero()
unfoldable pub is_zero_time : Time → Bool
is_zero_time t = eqb_ℤ t zero_time

-- t.UTC() as a time of Profile.Calendar
abbrev pub utc : Time → Calendar.Time
utc t = record { instant = instant_of t; zone = pos 0 }

-- t.UTC().Format("2006-01-02"), for a year below 10000
unfoldable pub utc_day : Time → Text
utc_day t = format_date (date_of (utc t))

abbrev two : ℕ → Text
two n = digit (n / 10) ∷ digit n ∷ []

-- the digits of a fraction of a second, without the zeros that end it; `n` has `places` digits
unfoldable pub fraction : ℕ → ℕ → Text
fraction zero n = []
fraction (suc places) n =
    let rest = fraction places (n / 10) in
    if n % 10 == 0 then rest else fraction_digits places (n / 10) ++ digit n ∷ []
  where
    fraction_digits : ℕ → ℕ → Text
    fraction_digits zero m = []
    fraction_digits (suc k) m = fraction_digits k (m / 10) ++ digit m ∷ []

abbrev dotted : Text → Text
dotted [] = []
dotted (c ∷ s) = b'.' ∷ c ∷ s

-- t.UTC().Format(time.RFC3339Nano)
unfoldable pub rfc3339_nano : Time → Text
rfc3339_nano t =
    let n = instant_of t % day_length in
    utc_day t
    ++ (b'T' ∷ two (n / hour))
    ++ (b':' ∷ two (n % hour / minute))
    ++ (b':' ∷ two (n % minute / 1000000000))
    ++ dotted (fraction 9 (n % 1000000000))
    ++ (b'Z' ∷ [])

-- t.UTC().Format(time.RFC3339)
unfoldable pub rfc3339 : Time → Text
rfc3339 t =
    let n = instant_of t % day_length in
    utc_day t
    ++ (b'T' ∷ two (n / hour))
    ++ (b':' ∷ two (n % hour / minute))
    ++ (b':' ∷ two (n % minute / 1000000000))
    ++ (b'Z' ∷ [])

-- days of the months before one
unfoldable pub days_before : ℕ → ℕ → ℕ
days_before zero y = 0
days_before (suc m) y = days_in m y + days_before m y

-- days since 0000-01-01
unfoldable pub day_number : Date → ℕ
day_number d =
    let y = d.year in
    y * 365 + (y + 3) / 4 - (y + 99) / 100 + (y + 399) / 400 + days_before d.month y + (d.day - 1)

-- what time.Parse("2006-01-02", day) returns: the zero Time with an error
unfoldable pub day_start : Text → Time
day_start day = elim (parse_date day) [
  | none ↦ zero_time
  | some d ↦ pos (day_number d * day_length) -ℤ pos (719528 * day_length)
]
