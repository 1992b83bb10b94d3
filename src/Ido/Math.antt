-- ===== src/Ido/Math.antt =====
-- ido/program/src/utils/math.rs: checked arithmetic as program errors.
use solstarter.Common.{
  ℕ, ℤ, checked_add, checked_sub, checked_mul, checked_div, checked_add_i64, checked_sub_i64,
}
use solstarter.Solana.{Result, ok_or}
use solstarter.Ido.Error.{overflow, underflow, division_by_zero, into}

-- `ErrorAddSub` for an unsigned word of `w` bits.
unfoldable pub error_add : ℕ → ℕ → ℕ → Result ℕ
error_add w a b = ok_or (checked_add w a b) (into overflow)

unfoldable pub error_sub : ℕ → ℕ → Result ℕ
error_sub a b = ok_or (checked_sub a b) (into underflow)

unfoldable pub error_increment : ℕ → ℕ → Result ℕ
error_increment w a = ok_or (checked_add w a 1) (into overflow)

unfoldable pub error_decrement : ℕ → Result ℕ
error_decrement a = ok_or (checked_sub a 1) (into underflow)

-- `ErrorAddSub` for a `UnixTimestamp`.
unfoldable pub error_add_i64 : ℤ → ℤ → Result ℤ
error_add_i64 a b = ok_or (checked_add_i64 a b) (into overflow)

unfoldable pub error_sub_i64 : ℤ → ℤ → Result ℤ
error_sub_i64 a b = ok_or (checked_sub_i64 a b) (into underflow)

-- `ErrorMulDiv` for `u128`.
unfoldable pub error_mul : ℕ → ℕ → Result ℕ
error_mul a b = ok_or (checked_mul 128 a b) (into overflow)

unfoldable pub error_div : ℕ → ℕ → Result ℕ
error_div a b = ok_or (checked_div a b) (into division_by_zero)
