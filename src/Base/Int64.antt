-- ===== src/Base/Int64.antt =====
-- Go's int64: a value is an integer, and an operation wraps its exact result to 64 bits.
use where_token.Base.Test.{ltb, if◌then◌else◌}
use where_token.Base.Int.{int_laws, pos_part, neg_part, ℤ, pos, negsuc, ◌+ℤ◌, ◌-ℤ◌, ◌≤ℤ◌}
use Prim.Native.Nat.{ℕ, ◌-◌, ◌%◌, ◌^◌}
use mathlib.Core.Logic.{◌≢◌}
use mathlib.Core.Path.{◌≡◌, refl}
use native.Mathlib.Omega.{arith}

abbrev pub max_int64 : ℤ
max_int64 = pos (2 ^ 63 - 1)

abbrev pub min_int64 : ℤ
min_int64 = negsuc (2 ^ 63 - 1)

-- The value is one of int64.
abbrev pub Fits : ℤ → Type 0
Fits z = (min_int64 ≤ℤ z) × (z ≤ℤ max_int64)

residue : ℤ → ℕ
residue (pos n) = n % 2 ^ 64
residue (negsuc n) = 2 ^ 64 - 1 - n % 2 ^ 64

unfoldable pub wrap64 : ℤ → ℤ
unfolding residue
wrap64 z = let m = residue z in if ltb m (2 ^ 63) then pos m else negsuc (2 ^ 64 - 1 - m)

unfoldable pub add64 : ℤ → ℤ → ℤ
add64 a b = wrap64 (a +ℤ b)

unfoldable pub sub64 : ℤ → ℤ → ℤ
sub64 a b = wrap64 (a -ℤ b)

pub wrap64_of_Fits : (z : ℤ) → Fits z → wrap64 z ≡ z
unfolding wrap64
wrap64_of_Fits (pos n) h = ground arith
wrap64_of_Fits (negsuc n) h = ground arith

pub wrap64-Fits : (z : ℤ) → Fits (wrap64 z)
unfolding wrap64
wrap64-Fits (pos n) = ground arith
wrap64-Fits (negsuc n) = ground arith

-- A sum may wrap at once or at each step.
pub wrap64-sum : (a b : ℤ) → wrap64 (wrap64 a +ℤ b) ≡ wrap64 (a +ℤ b)
unfolding wrap64 ◌+ℤ◌
wrap64-sum (pos a) (pos b) = ground arith
wrap64-sum (pos a) (negsuc b) = ground arith
wrap64-sum (negsuc a) (pos b) = ground arith
wrap64-sum (negsuc a) (negsuc b) = ground arith

pub add64_exact : (a b : ℤ) → Fits (a +ℤ b) → add64 a b ≡ a +ℤ b
unfolding add64
add64_exact a b h = wrap64_of_Fits (a +ℤ b) h

pub sub64_exact : (a b : ℤ) → Fits (a -ℤ b) → sub64 a b ≡ a -ℤ b
unfolding sub64
sub64_exact a b h = wrap64_of_Fits (a -ℤ b) h

-- Swapping the operands negates the difference, except for the smallest int64.
wrap64_flip :
    (z : ℤ)
    → wrap64 z ≢ min_int64
    → (pos_part (wrap64 (pos 0 -ℤ z)) ≡ neg_part (wrap64 z))
      × (neg_part (wrap64 (pos 0 -ℤ z)) ≡ pos_part (wrap64 z))
unfolding wrap64 ◌-ℤ◌
wrap64_flip (pos n) h = ground arith
wrap64_flip (negsuc n) h = ground arith

pub sub64_flip :
    (a b : ℤ)
    → sub64 a b ≢ min_int64
    → (pos_part (sub64 b a) ≡ neg_part (sub64 a b)) × (neg_part (sub64 b a) ≡ pos_part (sub64 a b))
unfolding sub64
sub64_flip a b h =
    let turn : b -ℤ a ≡ pos 0 -ℤ (a -ℤ b) = omega int_laws in rw turn (wrap64_flip (a -ℤ b) h)

wraps_up : add64 max_int64 (pos 1) ≡ min_int64
unfolding add64 wrap64 ◌+ℤ◌
wraps_up = refl
