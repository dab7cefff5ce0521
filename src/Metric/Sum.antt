-- ===== src/Metric/Sum.antt =====
-- `satAdd` of internal/metric/summary.go: an addition that stops at the ends of int64.
use where_token.Base.{◌≡◌, ◌∙◌, arith, ◌&&◌, if◌then◌else◌}
use where_token.Base.Int.{ℤ, pos, negsuc, ltb_ℤ, ◌+ℤ◌, ◌-ℤ◌, ◌≤ℤ◌, int_laws, +ℤ_parts, -ℤ_parts}
use where_token.Base.Int64.{Fits, max_int64, min_int64, add64, sub64, add64_exact, sub64_exact}

unfoldable pub sat_add : ℤ → ℤ → ℤ
sat_add a b =
    if ltb_ℤ (pos 0) b && ltb_ℤ (sub64 max_int64 b) a
    then max_int64
    else if ltb_ℤ b (pos 0) && ltb_ℤ a (sub64 min_int64 b)
    then min_int64
    else add64 a b

-- the nearest value of int64
unfoldable pub clamp : ℤ → ℤ
clamp z = if ltb_ℤ max_int64 z then max_int64 else if ltb_ℤ z min_int64 then min_int64 else z

sub_max : (b : ℤ) → Fits b → pos 0 ≤ℤ b → sub64 max_int64 b ≡ max_int64 -ℤ b
sub_max b h k = sub64_exact max_int64 b (omega int_laws, omega int_laws)

sub_min : (b : ℤ) → Fits b → b ≤ℤ pos 0 → sub64 min_int64 b ≡ min_int64 -ℤ b
sub_min b h k = sub64_exact min_int64 b (omega int_laws, omega int_laws)

-- On two values of int64, `satAdd` is their exact sum, held at the nearest end of int64.
pub sat_add-clamp : (a b : ℤ) → Fits a → Fits b → sat_add a b ≡ clamp (a +ℤ b)
unfolding sat_add clamp
sat_add-clamp a b h k = ground (
  arith,
  sub_max b k,
  sub_min b k,
  add64_exact a b,
  +ℤ_parts a b,
  -ℤ_parts max_int64 b,
  -ℤ_parts min_int64 b,
)

clamp-Fits : (z : ℤ) → Fits (clamp z)
unfolding clamp
clamp-Fits z = ground arith

clamp-clamp : (a b : ℤ) → pos 0 ≤ℤ a → pos 0 ≤ℤ b → clamp (clamp a +ℤ clamp b) ≡ clamp (a +ℤ b)
unfolding clamp ◌+ℤ◌
clamp-clamp (pos m) (pos n) h k = ground arith
clamp-clamp (pos m) (negsuc n) h k = ground arith
clamp-clamp (negsuc m) b h k = ground arith

-- Sums of naturals may be held at the end of int64 at any time: the end result is the same.
pub sat_add_of_clamp :
    (a b : ℤ) → pos 0 ≤ℤ a → pos 0 ≤ℤ b → sat_add (clamp a) (clamp b) ≡ clamp (a +ℤ b)
sat_add_of_clamp a b h k =
    sat_add-clamp (clamp a) (clamp b) (clamp-Fits a) (clamp-Fits b) ∙ clamp-clamp a b h k

pub clamp_of_Fits : (z : ℤ) → Fits z → clamp z ≡ z
unfolding clamp
clamp_of_Fits z h = ground arith
