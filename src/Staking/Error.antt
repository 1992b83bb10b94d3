-- ===== src/Staking/Error.antt =====
-- staking/program/src/error.rs: the errors of the staking program, and their numbers as custom program errors.
use solstarter.Common.{ℕ}
use solstarter.Solana.{ProgramError, custom}

pub data Error : Type 0 where
  wrong_owner : Error
  pool_must_be_related_to_market : Error
  lock_must_be_related_to_pool : Error
  pool_must_be_active_for_some_time : Error
  cannot_unlock_when_pool_is_active : Error
  cannot_lock_when_pool_is_active : Error
  invalid_authority : Error
  wrong_account_specified : Error
  overflow : Error
  underflow : Error
  cannot_transit_anything_now : Error
  derived_account_key_is_not_equal_to_calculated : Error
  derived_pool_lock_account_key_is_not_equal_to_calculated : Error
  pool_transit_wrong_direction : Error
  pool_transit_must_be_of_provided_pool : Error

-- `e as u32`.
pub code : Error → ℕ
code wrong_owner = 0
code pool_must_be_related_to_market = 1
code lock_must_be_related_to_pool = 2
code pool_must_be_active_for_some_time = 3
code cannot_unlock_when_pool_is_active = 4
code cannot_lock_when_pool_is_active = 5
code invalid_authority = 6
code wrong_account_specified = 7
code overflow = 8
code underflow = 9
code cannot_transit_anything_now = 10
code derived_account_key_is_not_equal_to_calculated = 11
code derived_pool_lock_account_key_is_not_equal_to_calculated = 12
code pool_transit_wrong_direction = 13
code pool_transit_must_be_of_provided_pool = 14

-- `From<Error> for ProgramError`.
abbrev pub into : Error → ProgramError
into e = custom (code e)
