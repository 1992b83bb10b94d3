-- ===== src/Common/Int.antt =====
-- Signed integers over the native numbers, and `i64` (`UnixTimestamp`) with its checked, wrapping
-- and casting operations.
use Prim.Native.Nat.{ℕ, suc, ◌+◌, ◌-◌, ◌%◌, ◌^◌, ◌≤◌, ◌<◌}
use mathlib.Core.Path.{◌≡◌, ap}
use mathlib.Core.Bool.{Bool, ◌&&◌}
use mathlib.Core.Option.{Option, none, some}
use native.Mathlib.Omega.{arith}
use solstarter.Common.Tests.{ltb, leb, if◌then◌else◌}

-- `negsuc n` is -(n + 1).
pub data ℤ : Type 0 where
  pos : ℕ → ℤ
  negsuc : ℕ → ℤ

abbrev pub pos_part : ℤ → ℕ
pos_part (pos n) = n
pos_part (negsuc n) = 0

abbrev pub neg_part : ℤ → ℕ
neg_part (pos n) = 0
neg_part (negsuc n) = suc n

-- a - b, as an integer.
abbrev pub sub_ℕ : ℕ → ℕ → ℤ
sub_ℕ a b = if leb b a then pos (a - b) else negsuc (b - a - 1)

infixl 65 ◌+ℤ◌ ◌-ℤ◌
infix 50 ◌≤ℤ◌ ◌<ℤ◌
unfoldable pub ◌+ℤ◌ : ℤ → ℤ → ℤ
a +ℤ b = sub_ℕ (pos_part a + pos_part b) (neg_part a + neg_part b)

unfoldable pub ◌-ℤ◌ : ℤ → ℤ → ℤ
a -ℤ b = sub_ℕ (pos_part a + neg_part b) (neg_part a + pos_part b)

abbrev pub ◌≤ℤ◌ : ℤ → ℤ → Type 0
a ≤ℤ b = pos_part a + neg_part b ≤ pos_part b + neg_part a

abbrev pub ◌<ℤ◌ : ℤ → ℤ → Type 0
a <ℤ b = pos_part a + neg_part b < pos_part b + neg_part a

abbrev pub leb_ℤ : ℤ → ℤ → Bool
leb_ℤ a b = leb (pos_part a + neg_part b) (pos_part b + neg_part a)

abbrev pub ltb_ℤ : ℤ → ℤ → Bool
ltb_ℤ a b = ltb (pos_part a + neg_part b) (pos_part b + neg_part a)

-- The values of an `i64`.
abbrev pub IsI64 : ℤ → Type 0
IsI64 a = (pos_part a < 2 ^ 63) × (neg_part a ≤ 2 ^ 63)

abbrev pub fits_i64 : ℤ → Bool
fits_i64 a = ltb (pos_part a) (2 ^ 63) && leb (neg_part a) (2 ^ 63)

abbrev pub checked : ℤ → Option ℤ
checked a = if fits_i64 a then some a else none

-- `i64::checked_add` and `i64::checked_sub`.
abbrev pub checked_add_i64 : ℤ → ℤ → Option ℤ
checked_add_i64 a b = checked (a +ℤ b)

abbrev pub checked_sub_i64 : ℤ → ℤ → Option ℤ
checked_sub_i64 a b = checked (a -ℤ b)

-- The 64-bit pattern of an integer, and the `i64` that a pattern stands for.
abbrev pub bits64 : ℤ → ℕ
bits64 (pos n) = n % 2 ^ 64
bits64 (negsuc n) = 2 ^ 64 - 1 - n % 2 ^ 64

abbrev pub signed64 : ℕ → ℤ
signed64 w = if ltb w (2 ^ 63) then pos w else negsuc (2 ^ 64 - w - 1)

-- `a - b` on `i64` in a build with no overflow checks.
unfoldable pub wrapping_sub_i64 : ℤ → ℤ → ℤ
wrapping_sub_i64 a b = signed64 (bits64 (a -ℤ b))

pub +ℤ_parts :
    (a b : ℤ)
    → pos_part (a +ℤ b) + neg_part a + neg_part b ≡ neg_part (a +ℤ b) + pos_part a + pos_part b
unfolding ◌+ℤ◌
+ℤ_parts a b = ground arith

pub -ℤ_parts :
    (a b : ℤ)
    → pos_part (a -ℤ b) + neg_part a + pos_part b ≡ neg_part (a -ℤ b) + pos_part a + neg_part b
unfolding ◌-ℤ◌
-ℤ_parts a b = ground arith

-- The positive part of a difference of integers is the difference, stopped at zero.
pub pos_part_sub :
    (a b : ℤ) → pos_part (a -ℤ b) ≡ pos_part a + neg_part b - (neg_part a + pos_part b)
unfolding ◌-ℤ◌
pos_part_sub a b = ground arith

pub neg_part_sub :
    (a b : ℤ) → neg_part (a -ℤ b) ≡ neg_part a + pos_part b - (pos_part a + neg_part b)
unfolding ◌-ℤ◌
neg_part_sub a b = ground arith

pub ℤ_parts_ext : (a b : ℤ) → pos_part a + neg_part b ≡ pos_part b + neg_part a → a ≡ b
ℤ_parts_ext (pos a) (pos b) h = ap pos (omega arith)
ℤ_parts_ext (pos a) (negsuc b) h = absurd (omega arith)
ℤ_parts_ext (negsuc a) (pos b) h = absurd (omega arith)
ℤ_parts_ext (negsuc a) (negsuc b) h = ap negsuc (omega arith)

-- The wrapping subtraction is the subtraction where that fits.
pub wrapping_sub_i64-eq : (a b : ℤ) → IsI64 (a -ℤ b) → wrapping_sub_i64 a b ≡ a -ℤ b
unfolding wrapping_sub_i64
wrapping_sub_i64-eq a b h = go (a -ℤ b) h
  where
    go : (d : ℤ) → IsI64 d → signed64 (bits64 d) ≡ d
    go (pos n) f = ground arith
    go (negsuc n) f = ground arith
