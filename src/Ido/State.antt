-- ===== src/Ido/State.antt =====
-- ido/program/src/state.rs: the accounts of the IDO program. The operations of a pool are in the
-- child modules.
pub mod Sale
pub mod Allocations
pub mod Stages
pub mod Price
use solstarter.Common.{ℕ, ℤ, Bool, true, false, List, ◌==◌}
use solstarter.Solana.{
  Pubkey, Result, require, fail_if, account_already_initialized, uninitialized_account,
}

abbrev pub uninitialized_version : ℕ
uninitialized_version = 0

abbrev pub market_version : ℕ
market_version = 1

abbrev pub user_kyc_version : ℕ
user_kyc_version = 1

abbrev pub pool_version : ℕ
pool_version = 1

abbrev pub whitelist_token_amount : ℕ
whitelist_token_amount = 1

abbrev pub default_whitelist_key : Pubkey
default_whitelist_key = 0

pub record Market : Type 0 where
  pub version : ℕ
  pub owner : Pubkey
  pub stake_pool : Pubkey

pub data KycRequirement : Type 0 where
  not_required any_required : KycRequirement

-- `kyc_requirement != KycRequirement::NotRequired`.
abbrev pub is_kyc_required : KycRequirement → Bool
is_kyc_required not_required = false
is_kyc_required any_required = true

pub data MintWhitelist : Type 0 where
  key : Pubkey → MintWhitelist
  none : Pubkey → MintWhitelist

pub record Pool : Type 0 where
  pub version : ℕ
  pub market : Pubkey
  pub account_collection : Pubkey
  pub account_distribution : Pubkey
  pub mint_pool : Pubkey
  pub mint_whitelist : MintWhitelist
  pub kyc_requirement : KycRequirement
  pub price : ℕ
  pub goal_max_collected : ℕ
  pub goal_min_collected : ℕ
  pub amount_investment_min : ℕ
  pub amount_investment_max : ℕ
  pub time_start : ℤ
  pub time_finish : ℤ
  pub amount_collected : ℕ
  pub amount_to_distribute : ℕ
  pub owner : Pubkey
  pub authority : Pubkey
  pub authority_bump_seed : ℕ
  pub tier_allocation : List ℕ
  pub tier_remaining : List ℕ
  pub time_table : List ℕ

pub data Stage : Type 0 where
  initial_stage tier_allocation_stage final_stage : Stage

pub record MarketUserKyc : Type 0 where
  pub version : ℕ
  pub market : Pubkey
  pub user_wallet : Pubkey
  pub expiration : ℤ

-- `uninitialized` and `initialized` of `Market`, `Pool` and `MarketUserKyc`, on the version.
unfoldable pub check_uninitialized : ℕ → Result (Unit {0})
check_uninitialized version = require (version == uninitialized_version) account_already_initialized

unfoldable pub check_initialized : ℕ → Result (Unit {0})
check_initialized version = fail_if (version == uninitialized_version) uninitialized_account
