-- ===== src/Staking/Processor/Initialize.antt =====
-- `initialize_pool` and `initialize_lock` of staking/program/src/processor.rs.
pub mod Locks
use solstarter.Common.{ℕ, ◌∷◌, [], ◌==◌}
use solstarter.Solana.{
  Pubkey, World, AccountInfo, data_len, Runtime, key_seed, bump_seed, Result, require, ◌>>=◌, ◌>>◌,
  account_not_rent_exempt, is_owner, is_signer, same_key, read, write,
}
use solstarter.Staking.Error.{
  invalid_authority, wrong_account_specified,
  derived_pool_lock_account_key_is_not_equal_to_calculated, into,
}
use solstarter.Staking.Program.{
  find_key_program_address, find_2key_program_address, create_account_with_seed_signed, lock_seed,
}
use solstarter.Staking.Invoke.{initialize_mint, initialize_token_account}
use solstarter.Staking.State.{v1, check_uninitialized}
use solstarter.Staking.Processor.Shared.{Codecs, InitializePoolInput}

pub record InitializePoolAccounts : Type 0 where
  pub pool : AccountInfo
  pub token_account_sos : AccountInfo
  pub mint_sos : AccountInfo
  pub pool_mint_xsos : AccountInfo
  pub program_authority : AccountInfo
  pub rent : AccountInfo

pub record InitializeLockAccounts : Type 0 where
  pub pool : AccountInfo
  pub user_wallet : AccountInfo
  pub pool_lock : AccountInfo
  pub pool_user_authority : AccountInfo
  pub pool_mint_xsos : AccountInfo
  pub pool_lock_token_account_xsos : AccountInfo
  pub rent : AccountInfo

abbrev pub pool_lock_len : ℕ
pool_lock_len = 97

module _ (rt : Runtime) (cs : Codecs) (program_id : Pubkey) where
  unfoldable pub initialize_pool :
      InitializePoolAccounts → InitializePoolInput → World → Result World
  unfolding check_uninitialized
  initialize_pool a input w = do
    is_owner program_id (a.pool ∷ []) w
    require (a.program_authority.key == (find_key_program_address rt a.pool.key program_id).0)
        (into invalid_authority)
    mint ← rt.unpack_mint_from_slice (w a.mint_sos.key).bytes
    w₁ ← initialize_mint rt a.pool_mint_xsos a.program_authority mint.decimals a.rent w
    w₂ ← initialize_token_account rt a.token_account_sos a.mint_sos a.program_authority a.rent w₁
    rent ← rt.rent_from a.rent (w₂ a.rent.key)
    require (rent.is_exempt (w₂ a.pool.key).lamports (data_len w₂ a.pool)) account_not_rent_exempt
    pool_state ← read cs.stake_pool a.pool w₂
    check_uninitialized pool_state.version
    write cs.stake_pool
        (record pool_state {
          version = v1;
          tier_users = 0 ∷ 0 ∷ 0 ∷ 0 ∷ [];
          transit_incoming = input.transit_incoming;
          transit_outgoing = input.transit_outgoing;
          tier_balance = input.tier_balance;
          token_account_sos = a.token_account_sos.key;
          pool_mint_xsos = a.pool_mint_xsos.key;
          ido_authority = input.ido_authority;
        })
        a.pool w₂

  unfoldable pub initialize_lock : InitializeLockAccounts → World → Result World
  initialize_lock a w = do
    is_owner program_id (a.pool ∷ []) w
    is_signer a.user_wallet
    pool_state ← read cs.stake_pool a.pool w
    let (pool_user_authority_key, bump) =
        find_2key_program_address rt a.pool.key a.user_wallet.key program_id
    same_key pool_user_authority_key a.pool_user_authority (into invalid_authority)
    require (pool_state.pool_mint_xsos == a.pool_mint_xsos.key) (into wrong_account_specified)
    w₁ ←
        initialize_token_account rt a.pool_lock_token_account_xsos a.pool_mint_xsos
          a.pool_user_authority a.rent w
    pool_lock_key ← rt.create_with_seed pool_user_authority_key lock_seed program_id
    require (pool_lock_key == a.pool_lock.key)
        (into derived_pool_lock_account_key_is_not_equal_to_calculated)
    rent ← rt.rent_from a.rent (w₁ a.rent.key)
    w₂ ←
        create_account_with_seed_signed rt a.user_wallet a.pool_lock a.pool_user_authority lock_seed
          (rent.minimum_balance pool_lock_len) pool_lock_len program_id
          (key_seed a.pool.key ∷ key_seed a.user_wallet.key ∷ bump_seed bump ∷ []) w₁
    _ ← read cs.pool_lock a.pool_lock w₂
    write cs.pool_lock
        (record {
          version = v1;
          pool = a.pool.key;
          user_wallet = a.user_wallet.key;
          token_account_xsos = a.pool_lock_token_account_xsos.key;
        })
        a.pool_lock w₂
