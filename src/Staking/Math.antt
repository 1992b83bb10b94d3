-- ===== src/Staking/Math.antt =====
-- staking/program/src/utils/math.rs: checked arithmetic as program errors, and the part of a
-- transit that may be claimed.
pub mod Finish
use solstarter.Common.{
  ℕ, ℤ, Option, none, some, min, pos_part, checked_add, checked_sub, checked_mul, checked_div,
  try_from, checked_add_i64, checked_sub_i64, ◌==◌, if◌then◌else◌,
}
use solstarter.Common.Options.{◌>>=◌}
use solstarter.Solana.{Result, ok_or}
use solstarter.Staking.Error.{overflow, underflow, into}

-- `ErrorAdd` for an unsigned word of `w` bits.
unfoldable pub error_add : ℕ → ℕ → ℕ → Result ℕ
error_add w a b = ok_or (checked_add w a b) (into overflow)

unfoldable pub error_sub : ℕ → ℕ → Result ℕ
error_sub a b = ok_or (checked_sub a b) (into underflow)

unfoldable pub error_increment : ℕ → ℕ → Result ℕ
error_increment w a = ok_or (checked_add w a 1) (into overflow)

unfoldable pub error_decrement : ℕ → Result ℕ
error_decrement a = ok_or (checked_sub a 1) (into underflow)

-- `ErrorAdd` for a `UnixTimestamp`.
unfoldable pub error_add_i64 : ℤ → ℤ → Result ℤ
error_add_i64 a b = ok_or (checked_add_i64 a b) (into overflow)

unfoldable pub error_sub_i64 : ℤ → ℤ → Result ℤ
error_sub_i64 a b = ok_or (checked_sub_i64 a b) (into underflow)

-- `i64::max(0, x) as u128` is the positive part of `x`.
unfoldable pub finish : ℤ → ℤ → ℤ → ℕ → ℕ → Option ℕ
finish transit_from now transit_until amount_claimed remaining_amount = do
  interval ← checked_sub_i64 transit_until transit_from
  let transit_interval = pos_part interval
  passed ← checked_sub_i64 now transit_from
  let time_passed = min transit_interval (pos_part passed)
  total ← checked_add 128 amount_claimed remaining_amount
  product ← checked_mul 128 total time_passed
  possible_to_claim ← checked_div product transit_interval
  amount_to_claim ← checked_sub possible_to_claim amount_claimed
  if amount_to_claim == 0 then none else try_from 64 amount_to_claim
