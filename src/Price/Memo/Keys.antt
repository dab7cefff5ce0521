-- ===== src/Price/Memo/Keys.antt =====
-- The keys of the memo of Resolve, and the days that they stand for.
use where_token.Base.{
  ◌≡◌, refl, sym, ap, ◌∙◌, ◌⊎◌, inl, inr, Bool, false, [], ◌∷◌, ◌++◌, arith, if◌then◌else◌, ℕ, ◌*◌,
  ◌/◌, ◌^◌, ◌<◌, any_of, ◌==◌,
}
use mathlib.Core.Option.{some-injective}
use where_token.Base.Int.{pos, ltb_ℤ}
use where_token.Base.Int64.{Fits}
use where_token.Base.Text.{Text}
use where_token.Base.Decimal.{format_int, parse_int, parse_int-format_int}
use where_token.Event.{Time, zero_time}
use where_token.Event.Clock.{is_zero_time}
use where_token.Price.Model.{normalize}
use where_token.Price.{Rate, Query, day_key, memo_key}

-- the zero Time, or a midnight of UTC that is not before 1970
abbrev pub IsMidnight : Time → Type 0
IsMidnight t = (t ≡ zero_time) ⊎ ((k : ℕ) × (t ≡ pos (k * 86400000000000)))

-- the zero Time, or a time from 1970 on whose nanoseconds fit an int64
abbrev pub IsDated : Time → Type 0
IsDated t = (t ≡ zero_time) ⊎ ((n : ℕ) × (t ≡ pos n) × (n < 2 ^ 63))

abbrev pub IsAligned : {Price : Type 0} → Rate Price → Type 0
IsAligned r = IsMidnight r.from × IsMidnight r.to

abbrev pub has_bar : Text → Bool
has_bar = any_of (λ c. c == b'|')

-- Neither part of the memo's key can be mistaken for another.
abbrev pub IsPlain : Query → Type 0
IsPlain q =
    (any_of (λ c. c == b'|') q.vendor ≡ false)
    × (any_of (λ c. c == b'|') (normalize q.model) ≡ false)
    × IsDated q.at

unfoldable before_bar : Text → Text
before_bar [] = []
before_bar (c ∷ s) = if c == b'|' then [] else c ∷ before_bar s

unfoldable after_bar : Text → Text
after_bar [] = []
after_bar (c ∷ s) = let rest = after_bar s in if c == b'|' then s else rest

bar-parts :
    (v x : Text)
    → has_bar v ≡ false
    → (before_bar (v ++ (b'|' ∷ x)) ≡ v) × (after_bar (v ++ (b'|' ∷ x)) ≡ x)
unfolding before_bar after_bar any_of
bar-parts [] x h = (refl, refl)
bar-parts (c ∷ v) x h = ground (arith, bar-parts v x)

pub midnight_same :
    (m n : ℕ) (b : Time)
    → IsMidnight b
    → m / 1000000000 / 86400 ≡ n / 1000000000 / 86400
    → ltb_ℤ (pos m) b ≡ ltb_ℤ (pos n) b
midnight_same m n b (inl z) h = ground (arith, z)
midnight_same m n b (inr (k, e)) h = rw e (ground arith)

day_key_dated : (n : ℕ) → day_key (pos n) ≡ pos (n / 1000000000 / 86400)
unfolding day_key is_zero_time
day_key_dated n = ground arith

day_key-Fits : (t : Time) → IsDated t → Fits (day_key t)
unfolding day_key is_zero_time
day_key-Fits t (inl z) = ground (arith, z)
day_key-Fits t (inr (n, e, small)) = rw e (ground (arith, small))

pub memo_key-injective :
    (v w x y : Text) (t u : Time)
    → has_bar v ≡ false
    → has_bar w ≡ false
    → has_bar x ≡ false
    → has_bar y ≡ false
    → IsDated t
    → IsDated u
    → memo_key v x t ≡ memo_key w y u
    → (v ≡ w) × (x ≡ y) × (day_key t ≡ day_key u)
unfolding memo_key
memo_key-injective v w x y t u hv hw hx hy dt du e =
    let (pv, qv) = bar-parts v (x ++ (b'|' ∷ format_int (day_key t))) hv in
    let (pw, qw) = bar-parts w (y ++ (b'|' ∷ format_int (day_key u))) hw in
    let (px, qx) = bar-parts x (format_int (day_key t)) hx in
    let (py, qy) = bar-parts y (format_int (day_key u)) hy in
    let rest = sym qv ∙ ap after_bar e ∙ qw in
    let days = sym qx ∙ ap after_bar rest ∙ qy in
    (
      sym pv ∙ ap before_bar e ∙ pw,
      sym px ∙ ap before_bar rest ∙ py,
      some-injective _ _ (
          sym (parse_int-format_int (day_key t) (day_key-Fits t dt))
          ∙ ap parse_int days
          ∙ parse_int-format_int (day_key u) (day_key-Fits u du)),
    )

-- Two times of one day key are both undated, or both dated and of one day.
pub same_day :
    (t u : Time)
    → IsDated t
    → IsDated u
    → day_key t ≡ day_key u
    → (t ≡ u)
      ⊎ ((m : ℕ) × (n : ℕ) × (t ≡ pos m)
          × (u ≡ pos n)
          × (m / 1000000000 / 86400 ≡ n / 1000000000 / 86400))
unfolding day_key is_zero_time
same_day t u (inl z) (inl y) e = inl (z ∙ sym y)
same_day t u (inl z) (inr (n, f, _)) e = ground (arith, z, f)
same_day t u (inr (m, f, _)) (inl z) e = ground (arith, z, f)
same_day t u (inr (m, f, _)) (inr (n, g, _)) e = inr (m, n, f, g, ground (arith, f, g))
