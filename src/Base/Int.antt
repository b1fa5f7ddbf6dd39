-- ===== src/Base/Int.antt =====
-- Go's `int` parameters, which may be negative, as integers over the native numbers.
use Prim.Native.Nat.{ℕ, suc, ◌+◌, ◌-◌, ◌*◌, ◌%◌, ◌≤◌, ◌<◌}
use mathlib.Core.Bool.{Bool}
use mathlib.Core.Path.{◌≡◌}
use native.Mathlib.Omega.{arith}
use poison_trace.Base.Tests.{ltb, leb, if◌then◌else◌}

-- `negsuc n` is -(n + 1).
pub data ℤ : Type 0 where
  pos : ℕ → ℤ
  negsuc : ℕ → ℤ

abbrev pub pos_part : ℤ → ℕ
pos_part (pos n) = n
pos_part (negsuc n) = 0

abbrev pub neg_part : ℤ → ℕ
neg_part (pos n) = 0
neg_part (negsuc n) = suc n

infix 50 ◌≤ℤ◌
abbrev pub ◌≤ℤ◌ : ℤ → ℤ → Type 0
a ≤ℤ b = pos_part a + neg_part b ≤ pos_part b + neg_part a

abbrev pub ltb_ℤ : ℤ → ℤ → Bool
ltb_ℤ a b = ltb (pos_part a + neg_part b) (pos_part b + neg_part a)

abbrev pub leb_ℤ : ℤ → ℤ → Bool
leb_ℤ a b = leb (pos_part a + neg_part b) (pos_part b + neg_part a)

-- `p - n`.
abbrev pub difference : ℕ → ℕ → ℤ
difference p n = if ltb p n then negsuc (n - p - 1) else pos (p - n)

abbrev pub add_ℤ : ℤ → ℤ → ℤ
add_ℤ a b = difference (pos_part a + pos_part b) (neg_part a + neg_part b)

abbrev pub mul_ℤ : ℤ → ℤ → ℤ
mul_ℤ a b =
    difference (pos_part a * pos_part b + neg_part a * neg_part b)
      (pos_part a * neg_part b + neg_part a * pos_part b)

-- The 64-bit integer of a number: from 2 ^ 63 on it is negative.
abbrev pub signed64 : ℕ → ℤ
signed64 n =
    let r = n % 18_446_744_073_709_551_616 in
    if ltb r 9_223_372_036_854_775_808 then pos r else negsuc (18_446_744_073_709_551_615 - r)

-- Go's `int` and `int64` wrap around at 64 bits.
abbrev pub wrap64 : ℤ → ℤ
wrap64 (pos n) = signed64 n
wrap64 (negsuc n) = signed64 (18_446_744_073_709_551_615 - n % 18_446_744_073_709_551_616)

-- `a + b` and `a * b`.
abbrev pub add_int64 : ℤ → ℤ → ℤ
add_int64 a b = wrap64 (add_ℤ a b)

abbrev pub mul_int64 : ℤ → ℤ → ℤ
mul_int64 a b = wrap64 (mul_ℤ a b)

pub pos_part_mono : (a b : ℤ) → a ≤ℤ b → pos_part a ≤ pos_part b
pos_part_mono (pos m) (pos n) h = omega (arith, h)
pos_part_mono (pos m) (negsuc n) h = omega (arith, h)
pos_part_mono (negsuc m) b h = omega arith

pub add_ℤ-zero_left : (a : ℤ) → add_ℤ (pos 0) a ≡ a
add_ℤ-zero_left (pos n) = ground arith
add_ℤ-zero_left (negsuc n) = ground arith

-- A number of 64 bits is not changed.
pub wrap64-signed64 : (n : ℕ) → wrap64 (signed64 n) ≡ signed64 n
wrap64-signed64 n = ground arith

-- A sum that is not negative and fits is exact.
pub add_int64-exact :
    (a : ℤ) (n : ℕ)
    → pos 0 ≤ℤ a
    → pos_part a + n < 9_223_372_036_854_775_808
    → add_int64 a (pos n) ≡ add_ℤ a (pos n)
add_int64-exact (pos m) n h k = ground (arith, k)
add_int64-exact (negsuc m) n h k = absurd (omega (arith, h))
