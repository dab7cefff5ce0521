-- ===== src/Base/Decimal.antt =====
-- Decimal numerals: Go's strconv.FormatInt and strconv.ParseInt in base 10.
use where_token.Base.{
  any_of, any_of-append, ℕ, zero, suc, ◌+◌, ◌-◌, ◌*◌, ◌/◌, ◌%◌, ◌^◌, ◌<◌, ◌≤◌, ◌≡◌, ◌∙◌, ap, refl,
  inl, inr, Bool, false, ◌&&◌, Option, none, some, [], ◌∷◌, ◌++◌, arith, ltb, leb, ◌==◌,
  if◌then◌else◌, Bool-cases,
}
use where_token.Base.Int.{ℤ, pos, negsuc}
use where_token.Base.Int64.{Fits}
use where_token.Base.Text.{Text, is_space}

abbrev pub is_digit : ℕ → Bool
is_digit c = leb 48 c && leb c 57

-- the digits of `n`, most significant first; the fuel `suc n` is more than their number
unfoldable pub digits : ℕ → ℕ → Text
digits zero n = []
digits (suc f) n =
    let rest = digits f (n / 10) in if ltb n 10 then (48 + n) ∷ [] else rest ++ (48 + n % 10) ∷ []

unfoldable pub format_nat : ℕ → Text
unfolding digits
format_nat n = digits (suc n) n

-- strconv.FormatInt(z, 10)
unfoldable pub format_int : ℤ → Text
format_int (pos n) = format_nat n
format_int (negsuc n) = b'-' ∷ format_nat (suc n)

unfoldable pub read_digits : ℕ → Text → Option ℕ
read_digits acc [] = some acc
read_digits acc (c ∷ s) =
    let rest = read_digits (acc * 10 + (c - 48)) s in if is_digit c then rest else none

-- one digit at least
unfoldable pub read_nat : Text → Option ℕ
read_nat [] = none
read_nat (c ∷ s) = read_digits 0 (c ∷ s)

abbrev positive : Option ℕ → Option ℤ
positive none = none
positive (some n) = if ltb n (2 ^ 63) then some (pos n) else none

abbrev negative : Option ℕ → Option ℤ
negative none = none
negative (some zero) = some (pos 0)
negative (some (suc n)) = if ltb n (2 ^ 63) then some (negsuc n) else none

-- strconv.ParseInt(s, 10, 64); `none` is an error, of syntax or of range
unfoldable pub parse_int : Text → Option ℤ
parse_int [] = none
parse_int (c ∷ s) =
    if c == b'-'
    then negative (read_nat s)
    else if c == b'+'
    then positive (read_nat s)
    else positive (read_nat (c ∷ s))

read_digits-append :
    (acc : ℕ) (s : Text) (d n : ℕ)
    → read_digits acc s ≡ some n
    → d < 10
    → read_digits acc (s ++ (48 + d) ∷ []) ≡ some (n * 10 + d)
unfolding read_digits
read_digits-append acc [] d n h l = ground arith
read_digits-append acc (c ∷ s) d n h l =
    ground (arith, read_digits-append (acc * 10 + (c - 48)) s d n)

read_digits-digits : (f n : ℕ) → n < f → read_digits 0 (digits f n) ≡ some n
unfolding digits
read_digits-digits zero n h = elim h [ ]
read_digits-digits (suc f) n h = elim (Bool-cases (ltb n 10)) [
  | inl small ↦ rw small (unfold read_digits in ground arith)
  | inr large ↦ rw large (
      read_digits-append 0 (digits f (n / 10)) (n % 10) (n / 10)
        (read_digits-digits f (n / 10) (ground arith)) (omega arith)
      ∙ ap some (omega arith))
]

-- A numeral begins with a digit, hence with no sign.
Headed : Text → Type 0
Headed t = (c : ℕ) × (s : Text) × (t ≡ c ∷ s) × (48 ≤ c)

Headed-snoc : (t u : Text) → Headed t → Headed (t ++ u)
unfolding Headed
Headed-snoc t u (c, s, e, h) = (c, s ++ u, rw e, h)

digits-Headed : (f n : ℕ) → Headed (digits (suc f) n)
unfolding digits
digits-Headed zero n = elim (Bool-cases (ltb n 10)) [
  | inl small ↦ rw small (unfold Headed in (48 + n, [], refl, omega arith))
  | inr large ↦ rw large (unfold Headed in (48 + n % 10, [], refl, omega arith))
]
digits-Headed (suc f) n = elim (Bool-cases (ltb n 10)) [
  | inl small ↦ rw small (unfold Headed in (48 + n, [], refl, omega arith))
  | inr large ↦ rw large (Headed-snoc (digits (suc f) (n / 10)) _ (digits-Headed f (n / 10)))
]

format_nat-Headed : (n : ℕ) → Headed (format_nat n)
unfolding format_nat
format_nat-Headed n = digits-Headed n n

read_nat-format_nat : (n : ℕ) → read_nat (format_nat n) ≡ some n
unfolding format_nat read_nat Headed
read_nat-format_nat n =
    let (c, s, e, h) = digits-Headed n n in
    rw e (rw e at (read_digits-digits (suc n) n (omega arith)))

parse_int_unsigned :
    (t : Text) (n : ℕ) → Headed t → read_nat t ≡ some n → n < 2 ^ 63 → parse_int t ≡ some (pos n)
unfolding parse_int Headed
parse_int_unsigned [] n (c, s, e, h) r l = cc
parse_int_unsigned (b ∷ t) n (c, s, e, h) r l = ground arith

-- What is printed is read back.
pub parse_int-format_int : (z : ℤ) → Fits z → parse_int (format_int z) ≡ some z
unfolding format_int
parse_int-format_int (pos n) fits =
    parse_int_unsigned (format_nat n) n (format_nat-Headed n) (read_nat-format_nat n) (omega arith)
parse_int-format_int (negsuc n) fits =
    unfold parse_int in ground (arith, read_nat-format_nat (suc n))

digits_clean : (f n : ℕ) → any_of is_space (digits f n) ≡ false
unfolding digits any_of
digits_clean zero n = refl
digits_clean (suc f) n = ground (
  arith,
  digits_clean f (n / 10),
  any_of-append is_space (digits f (n / 10)) ((48 + n % 10) ∷ []),
)

-- A printed integer holds no space.
pub format_int_clean : (z : ℤ) → any_of is_space (format_int z) ≡ false
unfolding format_int format_nat any_of
format_int_clean (pos n) = digits_clean (suc n) n
format_int_clean (negsuc n) = ground (arith, digits_clean (suc (suc n)) (suc n))

-- What is read is an int64.
pub parse_int-Fits : (s : Text) (z : ℤ) → parse_int s ≡ some z → Fits z
unfolding parse_int
parse_int-Fits [] z h = cc
parse_int-Fits (c ∷ s) z h = ground arith
