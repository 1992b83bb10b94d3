-- ===== src/Ido/Processor/Initialize.antt =====
-- `initialize_market` and `initialize_pool` of ido/program/src/processor.rs.
pub mod Stored
use solstarter.Common.{ℕ, Option, none, some, [], ◌∷◌, ◌==◌}
use solstarter.Solana.{
  Pubkey, World, AccountInfo, data_len, Runtime, Result, ok, require, fail_if, ◌>>=◌, ◌>>◌,
  account_not_rent_exempt, uninitialized_account, is_owner, is_signer, read, read_unwrap, write,
}
use solstarter.Staking.Program.{find_key_program_address}
use solstarter.Ido.Error.{wrong_token_mint, into}
use solstarter.Ido.Instruction.{InitializeMarket, InitializePool, validate}
use solstarter.Ido.Invoke.{initialize_token_account, initialize_mint}
use solstarter.Ido.State.{
  Pool, MintWhitelist, check_uninitialized, market_version, pool_version, default_whitelist_key,
}
use solstarter.Ido.Processor.Shared.{Codecs, validate_market_owner}

pub record InitializeMarketAccounts : Type 0 where
  pub market : AccountInfo
  pub market_owner : AccountInfo
  pub rent : AccountInfo

pub record InitializePoolAccounts : Type 0 where
  pub market : AccountInfo
  pub pool : AccountInfo
  pub market_owner : AccountInfo
  pub mint_collection : AccountInfo
  pub mint_distribution : AccountInfo
  pub account_collection : AccountInfo
  pub account_distribution : AccountInfo
  pub mint_pool : AccountInfo
  pub pool_authority : AccountInfo
  pub rent : AccountInfo
  pub clock : AccountInfo
  pub mint_whitelist : Option AccountInfo

module _ (rt : Runtime) (cs : Codecs) (program_id : Pubkey) where
  unfoldable pub initialize_market :
      InitializeMarketAccounts → InitializeMarket → World → Result World
  unfolding check_uninitialized
  initialize_market a input w = do
    is_owner program_id (a.market ∷ []) w
    rent ← rt.rent_from a.rent (w a.rent.key)
    market_state ← read_unwrap cs.market a.market w
    check_uninitialized market_state.version
    is_signer a.market_owner
    require (rent.is_exempt (w a.market.key).lamports (data_len w a.market)) account_not_rent_exempt
    write cs.market
        (record {
          version = market_version;
          owner = a.market_owner.key;
          stake_pool = input.stake_pool;
        })
        a.market w

  -- The whitelist mint of a new pool, initialized if an account for it is given.
  unfoldable pub make_whitelist :
      Option AccountInfo → InitializePoolAccounts → World → Result (MintWhitelist × World)
  make_whitelist none a w = ok (MintWhitelist.none default_whitelist_key, w)
  make_whitelist (some mint) a w = do
    w' ← initialize_mint rt mint a.pool_authority 0 a.rent w
    ok (MintWhitelist.key mint.key, w')

  -- The fields that `initialize_pool` sets; the others stay as the account has them.
  abbrev pub new_pool : InitializePoolAccounts → InitializePool → Pool → MintWhitelist → ℕ → Pool
  new_pool a input pool_state whitelist bump = record pool_state {
    mint_whitelist = whitelist;
    version = pool_version;
    market = a.market.key;
    account_collection = a.account_collection.key;
    account_distribution = a.account_distribution.key;
    mint_pool = a.mint_pool.key;
    price = input.price;
    goal_max_collected = input.goal_max;
    goal_min_collected = input.goal_min;
    amount_investment_min = input.amount_min;
    amount_investment_max = input.amount_max;
    time_start = input.time_start;
    time_finish = input.time_finish;
    owner = input.pool_owner;
    authority = a.pool_authority.key;
    authority_bump_seed = bump;
    kyc_requirement = input.kyc_requirement;
    time_table = input.time_table;
  }

  unfoldable pub initialize_pool : InitializePoolAccounts → InitializePool → World → Result World
  unfolding check_uninitialized
  initialize_pool a input w = do
    is_owner program_id (a.pool ∷ a.market ∷ []) w
    rent_state ← rt.rent_from a.rent (w a.rent.key)
    clock ← rt.clock_from a.clock (w a.clock.key)
    validate input clock
    pool_state ← read cs.pool a.pool w
    check_uninitialized pool_state.version
    require (rent_state.is_exempt (w a.pool.key).lamports (data_len w a.pool))
        account_not_rent_exempt
    _ ← validate_market_owner cs a.market a.market_owner w
    fail_if (a.mint_collection.key == a.mint_distribution.key) (into wrong_token_mint)
    mint_collection_state ← rt.unpack_mint (w a.mint_collection.key).bytes
    require mint_collection_state.is_initialized uninitialized_account
    mint_distribution_state ← rt.unpack_mint (w a.mint_distribution.key).bytes
    require mint_distribution_state.is_initialized uninitialized_account
    let bump = (find_key_program_address rt a.pool.key program_id).1
    w₁ ←
        initialize_token_account rt a.account_collection a.mint_collection a.pool_authority a.rent w
    w₂ ←
        initialize_token_account rt a.account_distribution a.mint_distribution a.pool_authority
          a.rent w₁
    w₃ ← initialize_mint rt a.mint_pool a.pool_authority mint_collection_state.decimals a.rent w₂
    (whitelist, w₄) ← make_whitelist a.mint_whitelist a w₃
    write cs.pool (new_pool a input pool_state whitelist bump) a.pool w₄
