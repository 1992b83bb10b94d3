-- ===== src/Staking/Processor/Unstake.antt =====
-- `unstake_start` and `unstake_finish` of staking/program/src/processor.rs.
use solstarter.Common.{Bool, true, false, ◌∷◌, [], ◌==◌}
use solstarter.Solana.{
  Pubkey, World, AccountInfo, Runtime, Result, require, ◌>>=◌, ◌>>◌, invalid_account_data,
  missing_required_signature, is_owner, is_signer, same_key, read, write,
}
use solstarter.Staking.Error.{
  wrong_account_specified, pool_transit_wrong_direction, pool_transit_must_be_of_provided_pool,
  into,
}
use solstarter.Staking.Math.{error_add_i64}
use solstarter.Staking.Program.{find_key_program_address, is_derived}
use solstarter.Staking.Invoke.{
  initialize_token_account, token_transfer_program_authority, burn_tokens_with_user_authority,
}
use solstarter.Staking.State.{TransitDirection, outgoing, v1, check_uninitialized}
use solstarter.Staking.Processor.Shared.{Codecs, UnstakeStartInput, finish}

pub record UnstakeStartAccounts : Type 0 where
  pub pool : AccountInfo
  pub pool_authority : AccountInfo
  pub pool_token_account_sos : AccountInfo
  pub pool_transit : AccountInfo
  pub pool_transit_token_account_sos : AccountInfo
  pub mint_sos : AccountInfo
  pub user_wallet : AccountInfo
  pub user_token_account_xsos : AccountInfo
  pub mint_xsos : AccountInfo
  pub rent : AccountInfo
  pub clock : AccountInfo

pub record UnstakeFinishAccounts : Type 0 where
  pub pool : AccountInfo
  pub pool_transit : AccountInfo
  pub pool_authority : AccountInfo
  pub pool_transit_token_account_sos : AccountInfo
  pub user_wallet : AccountInfo
  pub user_token_account_sos : AccountInfo
  pub clock : AccountInfo

-- `direction == TransitDirection::Outgoing`.
abbrev pub is_outgoing : TransitDirection → Bool
is_outgoing outgoing = true
is_outgoing _ = false

module _ (rt : Runtime) (cs : Codecs) (program_id : Pubkey) where
  unfoldable pub unstake_start : UnstakeStartAccounts → UnstakeStartInput → World → Result World
  unfolding check_uninitialized error_add_i64
  unstake_start a input w = do
    is_owner program_id (a.pool ∷ a.pool_transit ∷ []) w
    pool_state ← read cs.stake_pool a.pool w
    require (pool_state.pool_mint_xsos == a.mint_xsos.key) (into wrong_account_specified)
    same_key pool_state.token_account_sos a.pool_token_account_sos (into wrong_account_specified)
    pool_sos ← rt.unpack_account_from_slice (w a.pool_token_account_sos.key).bytes
    require (pool_sos.mint == a.mint_sos.key) (into wrong_account_specified)
    clock ← rt.clock_from a.clock (w a.clock.key)
    bump ← is_derived rt a.pool_authority a.pool.key program_id
    w₁ ←
        initialize_token_account rt a.pool_transit_token_account_sos a.mint_sos a.pool_authority
          a.rent w
    w₂ ←
        burn_tokens_with_user_authority rt a.user_token_account_xsos a.mint_xsos a.user_wallet
          input.amount w₁
    w₃ ←
        token_transfer_program_authority rt a.pool.key a.pool_token_account_sos
          a.pool_transit_token_account_sos a.pool_authority bump input.amount w₂
    transit ← read cs.pool_transit a.pool_transit w₃
    check_uninitialized transit.version
    pool_now ← read cs.stake_pool a.pool w₃
    until ← error_add_i64 clock.unix_timestamp pool_now.transit_outgoing
    write cs.pool_transit
        (record transit {
          version = v1;
          direction = outgoing;
          pool = a.pool.key;
          token_account_sos = a.pool_transit_token_account_sos.key;
          user_wallet = a.user_wallet.key;
          transit_from = clock.unix_timestamp;
          transit_until = until;
        })
        a.pool_transit w₃

  unfoldable pub unstake_finish : UnstakeFinishAccounts → World → Result World
  unstake_finish a w = do
    is_owner program_id (a.pool ∷ a.pool_transit ∷ []) w
    is_signer a.user_wallet
    clock ← rt.clock_from a.clock (w a.clock.key)
    transit ← read cs.pool_transit a.pool_transit w
    require (transit.pool == a.pool.key) (into pool_transit_must_be_of_provided_pool)
    require (is_outgoing transit.direction) (into pool_transit_wrong_direction)
    require (transit.token_account_sos == a.pool_transit_token_account_sos.key) invalid_account_data
    require (transit.user_wallet == a.user_wallet.key) missing_required_signature
    remaining ← rt.unpack_account_from_slice (w a.pool_transit_token_account_sos.key).bytes
    (amount_to_claim, w₁) ← finish cs transit clock remaining.amount a.pool_transit w
    let bump = (find_key_program_address rt a.pool.key program_id).1
    token_transfer_program_authority rt a.pool.key a.pool_transit_token_account_sos
        a.user_token_account_sos a.pool_authority bump amount_to_claim w₁
