-- ===== src/Ido/Processor/Settle.antt =====
-- `claim`, `withdraw` and `add_to_whitelist` of ido/program/src/processor.rs.
pub mod Claim
pub mod Withdraw
pub mod Covered
use solstarter.Common.{ℕ, Bool, true, false, List, [], ◌∷◌, ltb_ℤ, leb, ◌==◌, if◌then◌else◌}
use solstarter.Solana.{
  Pubkey, World, AccountInfo, Clock, TokenAccount, Runtime, Result, ok, err, require, fail_if,
  ◌>>=◌, ◌>>◌, is_owner, is_signer, read, read_unwrap,
}
use solstarter.Ido.Error.{
  wrong_market_address_for_current_pool, cant_claim_from_active_pool, wrong_pool_token_mint,
  wrong_pool_account_to_send_tokens_from, wrong_market_owner, wrong_token_mint,
  whitelist_mint_not_set, cant_withdraw_from_active_pool, into,
}
use solstarter.Ido.Math.{error_sub}
use solstarter.Ido.Invoke.{token_transfer, token_mint_to, burn_tokens_with_user_authority}
use solstarter.Ido.State.{Market, Pool, MintWhitelist, check_initialized, whitelist_token_amount}
use solstarter.Ido.State.Sale.{success, collected_to_distributed, was_started}
use solstarter.Ido.Processor.Shared.{Codecs}

pub record ClaimAccounts : Type 0 where
  pub market : AccountInfo
  pub pool : AccountInfo
  pub pool_authority : AccountInfo
  pub account_from : AccountInfo
  pub user_authority : AccountInfo
  pub mint_pool : AccountInfo
  pub account_pool : AccountInfo
  pub account_to : AccountInfo
  pub clock : AccountInfo

pub record WithdrawAccounts : Type 0 where
  pub market : AccountInfo
  pub pool : AccountInfo
  pub pool_authority : AccountInfo
  pub pool_owner : AccountInfo
  pub account_from : AccountInfo
  pub account_to : AccountInfo
  pub clock : AccountInfo

pub record AddToWhitelistAccounts : Type 0 where
  pub pool : AccountInfo
  pub pool_authority : AccountInfo
  pub pool_owner : AccountInfo
  pub account_whitelist : AccountInfo
  pub mint_whitelist : AccountInfo

-- The amount that a withdrawal leaves in the pool's account `from`.
unfoldable pub adjustment : Pool → Pubkey → Bool → Result ℕ
adjustment p from true =
    if from == p.account_collection
    then ok 0
    else if from == p.account_distribution
    then ok p.amount_to_distribute
    else err (into wrong_pool_account_to_send_tokens_from)
adjustment p from false =
    if from == p.account_collection
    then ok p.amount_collected
    else if from == p.account_distribution
    then ok 0
    else err (into wrong_pool_account_to_send_tokens_from)

-- The check of a pool's whitelist mint against the account given.
abbrev pub check_whitelist_mint : MintWhitelist → Pubkey → Result (Unit {0})
check_whitelist_mint (MintWhitelist.key mint) given =
    require (mint == given) (into wrong_token_mint)
check_whitelist_mint (MintWhitelist.none _) given = err (into whitelist_mint_not_set)

module _ (rt : Runtime) (cs : Codecs) (program_id : Pubkey) where
  -- The payment of a claim: tokens sold, or the refund of a sale that missed its goal.
  unfoldable pub pay_claim : Bool → ClaimAccounts → Pool → ℕ → World → Result World
  unfolding collected_to_distributed
  pay_claim true a p amount w = do
    require (a.account_pool.key == p.account_distribution)
        (into wrong_pool_account_to_send_tokens_from)
    distributed ← collected_to_distributed p amount
    token_transfer rt a.pool.key a.account_pool a.account_to a.pool_authority p.authority_bump_seed
        distributed w
  pay_claim false a p amount w = do
    require (a.account_pool.key == p.account_collection)
        (into wrong_pool_account_to_send_tokens_from)
    token_transfer rt a.pool.key a.account_pool a.account_to a.pool_authority p.authority_bump_seed
        amount w

  unfoldable pub claim : ClaimAccounts → World → Result World
  claim a w = do
    is_owner program_id (a.pool ∷ a.market ∷ []) w
    clock ← rt.clock_from a.clock (w a.clock.key)
    pool_state ← read cs.pool a.pool w
    was_started pool_state clock.unix_timestamp
    require (pool_state.market == a.market.key) (into wrong_market_address_for_current_pool)
    fail_if (ltb_ℤ clock.unix_timestamp pool_state.time_finish) (into cant_claim_from_active_pool)
    require (a.mint_pool.key == pool_state.mint_pool) (into wrong_pool_token_mint)
    account_from_state ← rt.unpack_account (w a.account_from.key).bytes
    w₁ ←
        burn_tokens_with_user_authority rt a.account_from a.mint_pool a.user_authority
          account_from_state.amount w
    pay_claim (leb pool_state.goal_min_collected pool_state.amount_collected) a pool_state
        account_from_state.amount w₁

  unfoldable pub add_to_whitelist : AddToWhitelistAccounts → World → Result World
  add_to_whitelist a w = do
    is_owner program_id (a.pool ∷ []) w
    pool_state ← read cs.pool a.pool w
    check_initialized pool_state.version
    is_signer a.pool_owner
    require (a.pool_owner.key == pool_state.owner) (into wrong_market_owner)
    check_whitelist_mint pool_state.mint_whitelist a.mint_whitelist.key
    token_mint_to rt a.pool.key a.mint_whitelist a.account_whitelist a.pool_authority
        pool_state.authority_bump_seed whitelist_token_amount w

  unfoldable pub withdraw : WithdrawAccounts → World → Result World
  withdraw a w = do
    is_owner program_id (a.pool ∷ []) w
    is_signer a.pool_owner
    clock ← rt.clock_from a.clock (w a.clock.key)
    pool_state ← read cs.pool a.pool w
    was_started pool_state clock.unix_timestamp
    market_state ← read_unwrap cs.market a.market w
    check_initialized market_state.version
    require (pool_state.market == a.market.key) (into wrong_market_address_for_current_pool)
    require (a.pool_owner.key == pool_state.owner) (into wrong_market_owner)
    fail_if (ltb_ℤ clock.unix_timestamp pool_state.time_finish)
        (into cant_withdraw_from_active_pool)
    account_from_state ← rt.unpack_account (w a.account_from.key).bytes
    left ← adjustment pool_state a.account_from.key (success pool_state)
    amount_to_withdraw ← error_sub account_from_state.amount left
    token_transfer rt a.pool.key a.account_from a.account_to a.pool_authority
        pool_state.authority_bump_seed amount_to_withdraw w
