-- ===== src/Staking/Processor/Stake.antt =====
-- `stake_start` and `stake_finish` of staking/program/src/processor.rs.
use solstarter.Common.{Bool, true, false, ◌∷◌, [], ◌==◌}
use solstarter.Solana.{
  Pubkey, World, AccountInfo, data_len, Runtime, Result, require, ◌>>=◌, ◌>>◌,
  account_not_rent_exempt, invalid_account_data, missing_required_signature, is_owner, is_signer,
  same_key, read, write,
}
use solstarter.Staking.Error.{
  invalid_authority, wrong_account_specified, pool_transit_wrong_direction, into,
}
use solstarter.Staking.Math.{error_add_i64}
use solstarter.Staking.Program.{find_key_program_address}
use solstarter.Staking.Invoke.{
  initialize_token_account, token_transfer_with_user_authority, token_transfer_program_authority,
  token_mint_to,
}
use solstarter.Staking.State.{
  TransitDirection, incoming, v1, check_uninitialized, check_initialized,
}
use solstarter.Staking.Processor.Shared.{Codecs, StakeStartInput, finish}

pub record StakeStartAccounts : Type 0 where
  pub pool : AccountInfo
  pub pool_transit : AccountInfo
  pub pool_authority : AccountInfo
  pub pool_token_account_sos : AccountInfo
  pub pool_transit_token_account_sos : AccountInfo
  pub mint_sos : AccountInfo
  pub user_wallet : AccountInfo
  pub user_token_account_sos : AccountInfo
  pub rent : AccountInfo
  pub clock : AccountInfo

pub record StakeFinishAccounts : Type 0 where
  pub pool : AccountInfo
  pub pool_authority : AccountInfo
  pub pool_token_account_sos : AccountInfo
  pub pool_transit : AccountInfo
  pub pool_transit_token_account_sos : AccountInfo
  pub user_token_account_xsos : AccountInfo
  pub user_wallet : AccountInfo
  pub pool_mint_xsos : AccountInfo
  pub clock : AccountInfo

-- `direction == TransitDirection::Incoming`.
abbrev pub is_incoming : TransitDirection → Bool
is_incoming incoming = true
is_incoming _ = false

module _ (rt : Runtime) (cs : Codecs) (program_id : Pubkey) where
  unfoldable pub stake_start : StakeStartAccounts → StakeStartInput → World → Result World
  unfolding check_uninitialized check_initialized error_add_i64
  stake_start a input w = do
    is_owner program_id (a.pool ∷ a.pool_transit ∷ []) w
    is_signer a.user_wallet
    pool_state ← read cs.stake_pool a.pool w
    check_initialized pool_state.version
    same_key pool_state.token_account_sos a.pool_token_account_sos (into wrong_account_specified)
    pool_sos ← rt.unpack_account_from_slice (w a.pool_token_account_sos.key).bytes
    require (pool_sos.mint == a.mint_sos.key) (into wrong_account_specified)
    require (a.pool_authority.key == (find_key_program_address rt a.pool.key program_id).0)
        (into invalid_authority)
    w₁ ←
        initialize_token_account rt a.pool_transit_token_account_sos a.mint_sos a.pool_authority
          a.rent w
    w₂ ←
        token_transfer_with_user_authority rt a.user_token_account_sos
          a.pool_transit_token_account_sos a.user_wallet input.amount w₁
    rent ← rt.rent_from a.rent (w₂ a.rent.key)
    require (rent.is_exempt (w₂ a.pool_transit.key).lamports (data_len w₂ a.pool_transit))
        account_not_rent_exempt
    transit ← read cs.pool_transit a.pool_transit w₂
    check_uninitialized transit.version
    clock ← rt.clock_from a.clock (w₂ a.clock.key)
    until ← error_add_i64 clock.unix_timestamp pool_state.transit_incoming
    write cs.pool_transit
        (record transit {
          version = v1;
          direction = incoming;
          pool = a.pool.key;
          token_account_sos = a.pool_transit_token_account_sos.key;
          user_wallet = a.user_wallet.key;
          transit_from = clock.unix_timestamp;
          transit_until = until;
        })
        a.pool_transit w₂

  unfoldable pub stake_finish : StakeFinishAccounts → World → Result World
  unfolding check_initialized
  stake_finish a w = do
    is_owner program_id (a.pool ∷ a.pool_transit ∷ []) w
    is_signer a.user_wallet
    transit ← read cs.pool_transit a.pool_transit w
    check_initialized transit.version
    require (is_incoming transit.direction) (into pool_transit_wrong_direction)
    pool_state ← read cs.stake_pool a.pool w
    same_key pool_state.token_account_sos a.pool_token_account_sos (into wrong_account_specified)
    require (a.pool_mint_xsos.key == pool_state.pool_mint_xsos) (into wrong_account_specified)
    require (transit.token_account_sos == a.pool_transit_token_account_sos.key) invalid_account_data
    require (transit.user_wallet == a.user_wallet.key) missing_required_signature
    clock ← rt.clock_from a.clock (w a.clock.key)
    remaining ← rt.unpack_account_from_slice (w a.pool_transit_token_account_sos.key).bytes
    (amount_to_claim, w₁) ← finish cs transit clock remaining.amount a.pool_transit w
    let bump = (find_key_program_address rt a.pool.key program_id).1
    w₂ ←
        token_transfer_program_authority rt a.pool.key a.pool_transit_token_account_sos
          a.pool_token_account_sos a.pool_authority bump amount_to_claim w₁
    token_mint_to rt a.pool.key a.pool_mint_xsos a.user_token_account_xsos a.pool_authority bump
        amount_to_claim w₂
