-- ===== src/Ido/Error.antt =====
-- ido/program/src/error.rs: the errors of the IDO program, and their numbers as custom program errors.
use solstarter.Common.{ℕ}
use solstarter.Solana.{ProgramError, custom}

pub data Error : Type 0 where
  wrong_market_owner : Error
  market_or_pool_owner_required : Error
  wrong_program_address : Error
  wrong_token_mint : Error
  wrong_pool_token_mint : Error
  wrong_market_address_for_current_pool : Error
  pool_authority_must_be_aligned_to_pool : Error
  invalid_goal_numbers : Error
  invalid_investment_size_numbers : Error
  invalid_pool_time_frame : Error
  market_authority_must_be_derived_from_market : Error
  invalid_time_table : Error
  wrong_collect_account : Error
  wrong_kyc_account : Error
  cant_deposit_at_current_time : Error
  incorrect_deposit_amount : Error
  pool_already_full : Error
  cant_claim_from_active_pool : Error
  wrong_pool_account_to_send_tokens_from : Error
  whitelist_mint_not_set : Error
  cant_withdraw_from_active_pool : Error
  overflow : Error
  division_by_zero : Error
  underflow : Error
  whitelist_mint_missing : Error
  whitelist_mint_invalid : Error
  wrong_kyc_credentials : Error
  wrong_user_pool_stage : Error
  wrong_kyc_owner : Error
  lock_owner_must_be_user_wallet : Error
  pool_lock_token_must_be_attached_to_pool_lock : Error
  input_time_must_be_in_future : Error
  stake_pool_must_belong_to_market : Error
  account_on_this_tier_cannot_participate_on_current_stage : Error
  account_already_participated_on_this_stage : Error
  can_participate_only_in_started_pool : Error

-- `e as u32`.
pub code : Error → ℕ
code wrong_market_owner = 0
code market_or_pool_owner_required = 1
code wrong_program_address = 2
code wrong_token_mint = 3
code wrong_pool_token_mint = 4
code wrong_market_address_for_current_pool = 5
code pool_authority_must_be_aligned_to_pool = 6
code invalid_goal_numbers = 7
code invalid_investment_size_numbers = 8
code invalid_pool_time_frame = 9
code market_authority_must_be_derived_from_market = 10
code invalid_time_table = 11
code wrong_collect_account = 12
code wrong_kyc_account = 13
code cant_deposit_at_current_time = 14
code incorrect_deposit_amount = 15
code pool_already_full = 16
code cant_claim_from_active_pool = 17
code wrong_pool_account_to_send_tokens_from = 18
code whitelist_mint_not_set = 19
code cant_withdraw_from_active_pool = 20
code overflow = 21
code division_by_zero = 22
code underflow = 23
code whitelist_mint_missing = 24
code whitelist_mint_invalid = 25
code wrong_kyc_credentials = 26
code wrong_user_pool_stage = 27
code wrong_kyc_owner = 28
code lock_owner_must_be_user_wallet = 29
code pool_lock_token_must_be_attached_to_pool_lock = 30
code input_time_must_be_in_future = 31
code stake_pool_must_belong_to_market = 32
code account_on_this_tier_cannot_participate_on_current_stage = 33
code account_already_participated_on_this_stage = 34
code can_participate_only_in_started_pool = 35

-- `From<Error> for ProgramError`.
abbrev pub into : Error → ProgramError
into e = custom (code e)
