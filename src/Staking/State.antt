-- ===== src/Staking/State.antt =====
-- staking/program/src/state.rs: the accounts of the staking program, and tiers.
pub mod Tier
use solstarter.Common.{
  ℕ, ℤ, Bool, true, false, Option, List, leb, enumerate_from, rfind, if◌then◌else◌,
}
use mathlib.Core.Option
use solstarter.Solana.{
  Pubkey, Result, ok, err, account_already_initialized, uninitialized_account, require, fail_if,
}

pub data StateVersion : Type 0 where
  uninitialized v1 : StateVersion

pub record StakePool : Type 0 where
  pub version : StateVersion
  pub token_account_sos : Pubkey
  pub pool_mint_xsos : Pubkey
  pub ido_authority : Pubkey
  pub tier_users : List ℕ
  pub tier_balance : List ℕ
  pub transit_incoming : ℤ
  pub transit_outgoing : ℤ
  pub pool_active_until : ℤ

pub data TransitDirection : Type 0 where
  uninitialized incoming outgoing : TransitDirection

pub record PoolTransit : Type 0 where
  pub version : StateVersion
  pub pool : Pubkey
  pub direction : TransitDirection
  pub user_wallet : Pubkey
  pub token_account_sos : Pubkey
  pub transit_from : ℤ
  pub transit_until : ℤ
  pub amount_claimed : ℕ

pub record PoolLock : Type 0 where
  pub version : StateVersion
  pub pool : Pubkey
  pub user_wallet : Pubkey
  pub token_account_xsos : Pubkey

-- `self.version == StateVersion::Uninitialized`.
abbrev pub is_uninitialized : StateVersion → Bool
is_uninitialized StateVersion.uninitialized = true
is_uninitialized v1 = false

-- `uninitialized` and `initialized` of `StakePool`, `PoolLock` and `PoolTransit`, on the version.
unfoldable pub check_uninitialized : StateVersion → Result (Unit {0})
check_uninitialized version = require (is_uninitialized version) account_already_initialized

unfoldable pub check_initialized : StateVersion → Result (Unit {0})
check_initialized version = fail_if (is_uninitialized version) uninitialized_account

unfoldable pub get_tier : List ℕ → ℕ → Option ℕ
get_tier tier_balance pool_lock_amount =
    Option.map (λ p. p.0) (rfind (λ p. leb p.1 pool_lock_amount) (enumerate_from 0 tier_balance))
