-- ===== src/Staking/Processor/Lock.antt =====
-- `lock` and `unlock` of staking/program/src/processor.rs, and what they do to the tiers.
pub mod Tiers
pub mod Counted
pub mod Stored
pub mod Frozen
pub mod History
pub mod Released
use solstarter.Common.{ℕ, Option, none, some, List, [], ◌∷◌, ltb_ℤ, set, ◌==◌}
use solstarter.Solana.{
  Pubkey, World, AccountInfo, Runtime, key_seed, bump_seed, Result, ok, require, fail_if, index,
  ◌>>=◌, ◌>>◌, invalid_account_data, is_owner, is_signer, same_key, read, write, write_unwrap,
}
use solstarter.Staking.Error.{
  cannot_lock_when_pool_is_active, cannot_unlock_when_pool_is_active, wrong_owner,
  lock_must_be_related_to_pool, derived_pool_lock_account_key_is_not_equal_to_calculated, into,
}
use solstarter.Staking.Math.{error_add, error_sub, error_increment, error_decrement}
use solstarter.Staking.Program.{find_2key_program_address, lock_seed}
use solstarter.Staking.Invoke.{token_transfer_with_user_authority, token_transfer_signature}
use solstarter.Staking.State.{StakePool, PoolLock, get_tier}
use solstarter.Staking.Processor.Shared.{Codecs, LockInput, UnlockInput}

pub record LockAccounts : Type 0 where
  pub pool : AccountInfo
  pub user_wallet : AccountInfo
  pub pool_lock : AccountInfo
  pub pool_user_authority : AccountInfo
  pub pool_lock_token_account_xsos : AccountInfo
  pub user_token_account_xsos : AccountInfo
  pub clock : AccountInfo

-- One user fewer in the tier, if there is one.
unfoldable pub leave_tier : Option ℕ → StakePool → Result StakePool
unfolding error_decrement
leave_tier none p = ok p
leave_tier (some tier) p = do
  users ← index p.tier_users tier
  fewer ← error_decrement users
  ok (record p { tier_users = set p.tier_users tier fewer })

-- One user more in the tier.
unfoldable pub enter_tier : ℕ → StakePool → Result StakePool
unfolding error_increment
enter_tier tier p = do
  users ← index p.tier_users tier
  more ← error_increment 32 users
  ok (record p { tier_users = set p.tier_users tier more })

-- What `lock` does to the pool when a lock grows.
unfoldable pub change_tier : Option ℕ → Option ℕ → StakePool → Result StakePool
unfolding leave_tier enter_tier
change_tier old_tier none p = ok p
change_tier old_tier (some new_tier) p = do p' ← leave_tier old_tier p; enter_tier new_tier p'

unfoldable pub lock_tiers : ℕ → ℕ → StakePool → Result StakePool
unfolding change_tier error_add
lock_tiers amount added p = do
  new_value ← error_add 64 amount added
  change_tier (get_tier p.tier_balance amount) (get_tier p.tier_balance new_value) p

-- What `unlock` does on reaching a new tier: it is `tier_balance`, and not `tier_users`, that the code
-- increments.
unfoldable pub raise_balance : Option ℕ → StakePool → Result StakePool
unfolding error_increment
raise_balance none p = ok p
raise_balance (some tier) p = do
  balance ← index p.tier_balance tier
  more ← error_increment 64 balance
  ok (record p { tier_balance = set p.tier_balance tier more })

unfoldable pub unlock_tiers : ℕ → ℕ → StakePool → Result StakePool
unfolding leave_tier raise_balance error_sub
unlock_tiers amount removed p = do
  p' ← leave_tier (get_tier p.tier_balance amount) p
  new_value ← error_sub amount removed
  raise_balance (get_tier p'.tier_balance new_value) p'

module _ (rt : Runtime) (cs : Codecs) (program_id : Pubkey) where
  -- The checks of a lock record against the accounts given.
  unfoldable pub check_lock : LockAccounts → World → Result (Unit {0})
  check_lock a w = do
    pool_lock_state ← read cs.pool_lock a.pool_lock w
    same_key pool_lock_state.user_wallet a.user_wallet (into wrong_owner)
    same_key pool_lock_state.pool a.pool (into lock_must_be_related_to_pool)
    pool_lock_key ← rt.create_with_seed a.pool_user_authority.key lock_seed program_id
    same_key pool_lock_key a.pool_lock
        (into derived_pool_lock_account_key_is_not_equal_to_calculated)
    require (a.pool_lock_token_account_xsos.key == pool_lock_state.token_account_xsos)
        invalid_account_data

  unfoldable pub lock : LockAccounts → LockInput → World → Result World
  lock a input w = do
    is_owner program_id (a.pool ∷ a.pool_lock ∷ []) w
    token_state ← rt.unpack_account_from_slice (w a.pool_lock_token_account_xsos.key).bytes
    pool_state ← read cs.stake_pool a.pool w
    clock ← rt.clock_from a.clock (w a.clock.key)
    fail_if (ltb_ℤ clock.unix_timestamp pool_state.pool_active_until)
        (into cannot_lock_when_pool_is_active)
    check_lock a w
    pool_state' ← lock_tiers token_state.amount input.amount pool_state
    w₁ ←
        token_transfer_with_user_authority rt a.user_token_account_xsos
          a.pool_lock_token_account_xsos a.user_wallet input.amount w
    write_unwrap cs.stake_pool pool_state' a.pool w₁

  unfoldable pub unlock : LockAccounts → UnlockInput → World → Result World
  unlock a input w = do
    is_owner program_id (a.pool ∷ a.pool_lock ∷ []) w
    is_signer a.user_wallet
    token_state ← rt.unpack_account_from_slice (w a.pool_lock_token_account_xsos.key).bytes
    clock ← rt.clock_from a.clock (w a.clock.key)
    pool_state ← read cs.stake_pool a.pool w
    fail_if (ltb_ℤ clock.unix_timestamp pool_state.pool_active_until)
        (into cannot_unlock_when_pool_is_active)
    check_lock a w
    pool_state' ← unlock_tiers token_state.amount input.amount pool_state
    let bump = (find_2key_program_address rt a.pool.key a.user_wallet.key program_id).1
    w₁ ←
        token_transfer_signature rt a.pool_lock_token_account_xsos a.user_token_account_xsos
          a.pool_user_authority
          (key_seed a.pool.key ∷ key_seed a.user_wallet.key ∷ bump_seed bump ∷ []) input.amount w
    write cs.stake_pool pool_state' a.pool w₁
