-- ===== src/Base/Machine.antt =====
-- Machine integers of Go: the wrap-around of `int` (64 bits) and of a conversion to `int32`.
use Prim.Native.Nat.{ℕ, zero, suc, ◌+◌, ◌-◌, ◌*◌, ◌%◌, ◌^◌, ◌≤◌, ◌<◌}
use mathlib.Core.Path.{◌≡◌}
use native.Mathlib.Omega.{arith}
use truth_market.Base.Int.{ℤ, pos, negsuc, sub_ℕ, pos_part, neg_part, ◌-ℤ◌, ◌*ℤ◌}

-- A non-negative integer modulo 2 ^ 64, or a negative one, read as a number with a sign.
unfoldable pub wrap64 : ℤ → ℤ
wrap64 (pos n) = sub_ℕ ((n + 2 ^ 63) % 2 ^ 64) (2 ^ 63)
wrap64 (negsuc n) = sub_ℕ (2 ^ 64 - 1 - (n + 2 ^ 63) % 2 ^ 64) (2 ^ 63)

unfoldable pub wrap32 : ℤ → ℤ
wrap32 (pos n) = sub_ℕ ((n + 2 ^ 31) % 2 ^ 32) (2 ^ 31)
wrap32 (negsuc n) = sub_ℕ (2 ^ 32 - 1 - (n + 2 ^ 31) % 2 ^ 32) (2 ^ 31)

abbrev pub IsInt64 : ℤ → Type 0
IsInt64 (pos n) = n < 2 ^ 63
IsInt64 (negsuc n) = n < 2 ^ 63

abbrev pub IsInt32 : ℤ → Type 0
IsInt32 (pos n) = n < 2 ^ 31
IsInt32 (negsuc n) = n < 2 ^ 31

pub wrap64_lem : (x : ℤ) → IsInt64 x → wrap64 x ≡ x
unfolding wrap64
wrap64_lem (pos n) h = ground arith
wrap64_lem (negsuc n) h = ground arith

pub wrap32_lem : (x : ℤ) → IsInt32 x → wrap32 x ≡ x
unfolding wrap32
wrap32_lem (pos n) h = ground arith
wrap32_lem (negsuc n) h = ground arith

pub wrap32-IsInt32 : (x : ℤ) → IsInt32 (wrap32 x)
unfolding wrap32
wrap32-IsInt32 (pos n) = ground arith
wrap32-IsInt32 (negsuc n) = ground arith

mul_mono_left : (a b c : ℕ) → a ≤ b → a * c ≤ b * c
mul_mono_left a b zero h = omega arith
mul_mono_left a b (suc c) h = omega (arith, h, mul_mono_left a b c h)

pub mul_mono : (a b c d : ℕ) → a ≤ b → c ≤ d → a * c ≤ b * d
mul_mono a b zero d h k = omega arith
mul_mono a b (suc c) zero h k = absurd ground (arith, k)
mul_mono a b (suc c) (suc d) h k =
    omega (arith, h, k, mul_mono a b c d h (ground (arith, k)), mul_mono_left a b (suc c) h)

parts-IsInt64 : (x : ℤ) → pos_part x < 2 ^ 63 → neg_part x ≤ 2 ^ 63 → IsInt64 x
parts-IsInt64 (pos n) p q = p
parts-IsInt64 (negsuc n) p q = ground (arith, q)

abbrev size : ℤ → ℕ
size x = pos_part x + neg_part x

sub_ℕ-IsInt64 : (a b : ℕ) → a < 2 ^ 63 → b < 2 ^ 63 → IsInt64 (sub_ℕ a b)
sub_ℕ-IsInt64 a b p q = ground (arith, p, q)

product_bound : (a b : ℕ) → a ≤ 2 ^ 31 + 1 → b ≤ 2 ^ 31 → a * b < 2 ^ 63
product_bound a b p q = omega (arith, mul_mono a (2 ^ 31 + 1) b (2 ^ 31) p q)

size-IsInt64 : (x y : ℤ) → size x ≤ 2 ^ 31 + 1 → size y ≤ 2 ^ 31 → IsInt64 (x *ℤ y)
unfolding ◌*ℤ◌
size-IsInt64 (pos a) (pos b) p q =
    sub_ℕ-IsInt64 _ _ (omega (arith, product_bound a b (omega (arith, p)) (omega (arith, q))))
      (omega arith)
size-IsInt64 (pos a) (negsuc b) p q =
    sub_ℕ-IsInt64 _ _ (omega arith)
      (omega (arith, product_bound a (suc b) (omega (arith, p)) (omega (arith, q))))
size-IsInt64 (negsuc a) (pos b) p q =
    sub_ℕ-IsInt64 _ _ (omega arith)
      (omega (arith, product_bound (suc a) b (omega (arith, p)) (omega (arith, q))))
size-IsInt64 (negsuc a) (negsuc b) p q =
    sub_ℕ-IsInt64 _ _
      (omega (arith, product_bound (suc a) (suc b) (omega (arith, p)) (omega (arith, q))))
      (omega arith)

size-previous : (x : ℤ) → IsInt32 x → size (x -ℤ pos 1) ≤ 2 ^ 31 + 1
unfolding ◌-ℤ◌
size-previous (pos n) h = ground (arith, h)
size-previous (negsuc n) h = ground (arith, h)

size_bound : (x : ℤ) → IsInt32 x → size x ≤ 2 ^ 31
size_bound (pos n) h = ground (arith, h)
size_bound (negsuc n) h = ground (arith, h)

pub previous-IsInt64 : (x : ℤ) → IsInt32 x → IsInt64 (x -ℤ pos 1)
previous-IsInt64 x h =
    parts-IsInt64 (x -ℤ pos 1) (omega (arith, size-previous x h)) (omega (arith, size-previous x h))

-- The entries before a page, for a page number and a page size of 32 bits.
pub offset-IsInt64 : (x y : ℤ) → IsInt32 x → IsInt32 y → IsInt64 ((x -ℤ pos 1) *ℤ y)
offset-IsInt64 x y h k = size-IsInt64 (x -ℤ pos 1) y (size-previous x h) (size_bound y k)
