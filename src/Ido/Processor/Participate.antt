-- ===== src/Ido/Processor/Participate.antt =====
-- `participate` of ido/program/src/processor.rs, in the order of its steps.
pub mod Invest
pub mod History
pub mod Backed
pub mod Taken
pub mod Steps
pub mod Checks
pub mod Stored
use Prim.Native.String.{String}
use solstarter.Common.{
  ℕ, Bool, true, false, Option, none, some, List, [], ◌∷◌, ltb, ltb_ℤ, wrapping_add, ◌==◌, ◌!=◌,
  ◌||◌, if◌then◌else◌,
}
use solstarter.Solana.{
  Pubkey, World, AccountInfo, Clock, Rent, Runtime, Seed, key_seed, bump_seed, ProgramError, custom,
  Result, ok, err, panic, require, fail_if, ◌>>=◌, ◌>>◌, invalid_argument, is_owner, is_signer,
  same_key, read, read_unwrap, write,
}
use solstarter.Staking.Program
use solstarter.Staking.Program.{find_2key_program_address, create_account_with_seed_signed}
use solstarter.Ido.Error.{
  wrong_user_pool_stage, account_already_participated_on_this_stage,
  stake_pool_must_belong_to_market, wrong_kyc_credentials, wrong_market_address_for_current_pool,
  wrong_collect_account, incorrect_deposit_amount, pool_already_full, whitelist_mint_invalid,
  whitelist_mint_missing, lock_owner_must_be_user_wallet,
  pool_lock_token_must_be_attached_to_pool_lock, into,
}
use solstarter.Ido.Math.{error_add}
use solstarter.Ido.Instruction
use solstarter.Ido.Invoke.{
  token_transfer_with_user_authority, token_mint_to, burn_tokens_with_user_authority,
}
use solstarter.Ido.State.{
  Pool, MintWhitelist, Stage, initial_stage, tier_allocation_stage, final_stage, is_kyc_required,
  whitelist_token_amount,
}
use solstarter.Ido.State.Sale.{
  get_current_stage, stage_investment, update_distributed_from_collected, was_started,
}
use solstarter.Ido.Processor.Shared.{Codecs}

pub record ParticipateAccounts : Type 0 where
  pub market : AccountInfo
  pub pool : AccountInfo
  pub pool_authority : AccountInfo
  pub pool_user_authority : AccountInfo
  pub user_wallet : AccountInfo
  pub user_account_from : AccountInfo
  pub account_collection : AccountInfo
  pub user_account_to : AccountInfo
  pub pool_lock_account : AccountInfo
  pub mint_pool : AccountInfo
  pub market_user_kyc : AccountInfo
  pub user_pool_stage : AccountInfo
  pub pool_lock : AccountInfo
  pub stake_pool : AccountInfo
  pub rent : AccountInfo
  pub clock : AccountInfo
  pub account_whitelist : Option AccountInfo
  pub account_mint_whitelist : Option AccountInfo

-- `format!("{}", stage.to_u8())`.
abbrev pub stage_seed : Stage → String
stage_seed initial_stage = "0"
stage_seed tier_allocation_stage = "1"
stage_seed final_stage = "2"

abbrev pub user_pool_stage_len : ℕ
user_pool_stage_len = 0

-- `x == ProgramError::Custom(n)`.
abbrev pub is_custom : ProgramError → ℕ → Bool
is_custom (custom m) n = m == n
is_custom _ n = false

abbrev pub map_in_use {ℓ} : {A : Type ℓ} → ℕ → Result A → Result A
map_in_use n (ok a) = ok a
map_in_use n (err e) =
    err (if is_custom e n then into account_already_participated_on_this_stage else e)
map_in_use n panic = panic

-- The limits on one investment and on the whole sale; the sum is the code's unchecked `+`.
unfoldable pub check_amount : Pool → ℕ → Result (Unit {0})
check_amount p amount = do
  fail_if (ltb amount p.amount_investment_min || ltb p.amount_investment_max amount)
      (into incorrect_deposit_amount)
  fail_if (ltb p.goal_max_collected (wrapping_add 64 p.amount_collected amount))
      (into pool_already_full)

-- The new pool of a participation of `amount`.
unfoldable pub invest : Pool → ℕ → Option ℕ → Stage → Result Pool
unfolding error_add update_distributed_from_collected
invest p amount tier stage = do
  collected ← error_add 64 p.amount_collected amount
  update_distributed_from_collected (record p { amount_collected = collected }) amount tier stage

module _ (rt : Runtime) (cs : Codecs) (program_id : Pubkey) where
  -- Creates the account that marks the user's participation in the stage.
  unfoldable pub create_stage_account : ParticipateAccounts → Stage → Rent → World → Result World
  create_stage_account a stage rent w = do
    let (user_pool_key, bump) = find_2key_program_address rt a.pool.key a.user_wallet.key program_id
    same_key user_pool_key a.pool_user_authority (into wrong_user_pool_stage)
    user_pool_stage_key ← rt.create_with_seed user_pool_key (stage_seed stage) program_id
    same_key user_pool_stage_key a.user_pool_stage (into wrong_user_pool_stage)
    map_in_use rt.account_already_in_use (
        create_account_with_seed_signed rt a.user_wallet a.user_pool_stage a.pool_user_authority
          (stage_seed stage) (rent.minimum_balance user_pool_stage_len) user_pool_stage_len
          program_id (key_seed a.pool.key ∷ key_seed a.user_wallet.key ∷ bump_seed bump ∷ []) w)

  unfoldable pub check_kyc : Bool → ParticipateAccounts → Clock → World → Result (Unit {0})
  check_kyc false a clock w = ok tt
  check_kyc true a clock w = do
    is_owner program_id (a.market_user_kyc ∷ []) w
    kyc ← read cs.market_user_kyc a.market_user_kyc w
    fail_if
        (kyc.market != a.market.key
          || ltb_ℤ kyc.expiration clock.unix_timestamp
          || kyc.user_wallet != a.user_wallet.key)
        (into wrong_kyc_credentials)

  -- The checks between the creation of the stage account and the whitelist.
  unfoldable pub check_participation :
      ParticipateAccounts → Pool → Clock → ℕ → World → Result (Unit {0})
  unfolding check_kyc check_amount
  check_participation a p clock amount w = do
    market_state ← read_unwrap cs.market a.market w
    require (market_state.stake_pool == a.stake_pool.key) (into stake_pool_must_belong_to_market)
    check_kyc (is_kyc_required p.kyc_requirement) a clock w
    require (p.market == a.market.key) (into wrong_market_address_for_current_pool)
    require (a.account_collection.key == p.account_collection) (into wrong_collect_account)
    check_amount p amount

  -- Burns a whitelist token if the pool has a whitelist.
  unfoldable pub use_whitelist :
      MintWhitelist → Option AccountInfo → Option AccountInfo → AccountInfo → World → Result World
  use_whitelist (MintWhitelist.none _) account mint user_wallet w = ok w
  use_whitelist (MintWhitelist.key pool_mint) (some account) (some mint) user_wallet w = do
    require (pool_mint == mint.key) (into whitelist_mint_invalid)
    burn_tokens_with_user_authority rt account mint user_wallet whitelist_token_amount w
  use_whitelist (MintWhitelist.key pool_mint) _ _ user_wallet w = err (into whitelist_mint_missing)

  -- The amount taken, and the tier that it is charged to.
  unfoldable pub amount_and_tier :
      Stage → ParticipateAccounts → Pool → ℕ → World → Result (ℕ × Option ℕ)
  unfolding stage_investment
  amount_and_tier final_stage a p amount w = ok (amount, none)
  amount_and_tier stage a p amount w = do
    is_owner Program.program_id (a.pool_lock ∷ []) w
    stake_pool_state ← read cs.stake_pool a.stake_pool w
    pool_lock ← read cs.pool_lock a.pool_lock w
    require (pool_lock.user_wallet == a.user_wallet.key) (into lock_owner_must_be_user_wallet)
    require (pool_lock.pool == a.stake_pool.key) invalid_argument
    require (pool_lock.token_account_xsos == a.pool_lock_account.key)
        (into pool_lock_token_must_be_attached_to_pool_lock)
    pool_lock_account_state ← rt.unpack_account (w a.pool_lock_account.key).bytes
    stage_investment p amount stage stake_pool_state.tier_balance pool_lock_account_state.amount

  unfoldable pub participate : ParticipateAccounts → Instruction.Participate → World → Result World
  participate a input w = do
    is_owner program_id (a.pool ∷ a.market ∷ []) w
    is_signer a.user_wallet
    clock ← rt.clock_from a.clock (w a.clock.key)
    rent ← rt.rent_from a.rent (w a.rent.key)
    p ← read cs.pool a.pool w
    was_started p clock.unix_timestamp
    stage ← get_current_stage p clock
    w₁ ← create_stage_account a stage rent w
    check_participation a p clock input.amount w₁
    w₂ ←
        use_whitelist p.mint_whitelist a.account_whitelist a.account_mint_whitelist a.user_wallet w₁
    (amount_collected, tier) ← amount_and_tier stage a p input.amount w₂
    p' ← invest p amount_collected tier stage
    w₃ ← write cs.pool p' a.pool w₂
    w₄ ←
        token_transfer_with_user_authority rt a.user_account_from a.account_collection a.user_wallet
          amount_collected w₃
    token_mint_to rt a.pool.key a.mint_pool a.user_account_to a.pool_authority
        p'.authority_bump_seed amount_collected w₄
