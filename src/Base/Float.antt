-- ===== src/Base/Float.antt =====
-- Go's `float64`, by its 64 bits, and how IEEE 754 compares two of them.
use duckbug_go.Base.Tests.{ltb, if◌then◌else◌}
use duckbug_go.Base.Int.{ℤ, pos, negsuc, ltb_ℤ}
use Prim.Native.Nat.{ℕ, ◌-◌, ◌%◌, ◌^◌}
use mathlib.Core.Bool.{Bool, not, ◌&&◌}

-- A number that is not a number has all bits of the exponent, and some bit below them.
unfoldable pub is_nan : ℕ → Bool
is_nan x = ltb 0x7ff0000000000000 (x % 2 ^ 63)

-- The place of a number in the order; both zeros are at 0.
unfoldable pub float_key : ℕ → ℤ
float_key x =
    if ltb x (2 ^ 63) then pos x else if ltb (2 ^ 63) x then negsuc (x - 2 ^ 63 - 1) else pos 0

-- `x < y`.
unfoldable pub float_lt : ℕ → ℕ → Bool
unfolding is_nan float_key
float_lt x y = not (is_nan x) && not (is_nan y) && ltb_ℤ (float_key x) (float_key y)

-- `x <= y`.
unfoldable pub float_le : ℕ → ℕ → Bool
unfolding is_nan float_key
float_le x y = not (is_nan x) && not (is_nan y) && not (ltb_ℤ (float_key y) (float_key x))

abbrev pub float_zero : ℕ
float_zero = 0

abbrev pub float_one : ℕ
float_one = 0x3ff0000000000000

-- 0.10
abbrev pub float_tenth : ℕ
float_tenth = 0x3fb999999999999a
