-- ===== src/Staking/Processor/Dispatch/Requests.antt =====
-- Calls of the builders of staking/program/src/instruction.rs, and what they ask for of
-- staking/program/src/processor.rs.
use solstarter.Common.{Bool}
use solstarter.Solana.{
  Pubkey, World, Runtime, Result, ◌>>=◌, info, SolanaInstruction, ProgramIds, InstructionCodec,
}
use solstarter.Staking.Program.{lock_seed, program_id}
use solstarter.Staking.Instruction.{Instruction}
use solstarter.Staking.Instruction.Build
use solstarter.Staking.Instruction.Build.{find_key_program_address, find_2key_program_address}
use solstarter.Staking.Processor.Shared.{
  Codecs, InitializePoolInput, StakeStartInput, UnstakeStartInput, LockInput, UnlockInput,
  StartPoolInput,
}
use solstarter.Staking.Processor.Initialize
use solstarter.Staking.Processor.Stake
use solstarter.Staking.Processor.Unstake
use solstarter.Staking.Processor.Lock
use solstarter.Staking.Processor.Start

-- A call of a builder, with its arguments by name.
pub data Request : Type 0 where
  initialize_pool :
      (pool token_account_sos mint_sos pool_mint_xsos : Pubkey) → InitializePoolInput → Request
  stake_start :
      (pool pool_transit pool_token_account_sos pool_transit_token_account_sos mint_sos
        user_wallet : Pubkey)
      (user_token_account_sos : Pubkey)
      → StakeStartInput
      → Request
  stake_finish :
      (pool pool_token_account_sos pool_transit pool_transit_token_account_sos : Pubkey)
      (user_token_account_xsos user_wallet pool_mint_xsos : Pubkey)
      → Request
  unstake_start :
      (pool pool_token_account_sos pool_transit pool_transit_token_account_sos mint_sos
        user_wallet : Pubkey)
      (user_token_account_xsos mint_xsos : Pubkey)
      → UnstakeStartInput
      → Request
  unstake_finish :
      (pool pool_transit pool_transit_account_sos user_wallet user_token_account_sos : Pubkey)
      → Request
  initialize_lock :
      (pool user_wallet pool_mint_xsos pool_lock_token_account_xsos : Pubkey) → Request
  lock :
      (pool user_wallet pool_lock_token_account_xsos user_token_account_xsos : Pubkey)
      → LockInput
      → Request
  unlock :
      (pool user_wallet pool_lock_token_account_xsos user_token_account_xsos : Pubkey)
      → UnlockInput
      → Request
  start_pool : (pool market_authority : Pubkey) → StartPoolInput → Request

module _ (rt : Runtime) (cs : Codecs) (ids : ProgramIds)
    (codec : InstructionCodec Instruction) where
  abbrev pub build : Request → Result SolanaInstruction
  build (initialize_pool pool token_account_sos mint_sos pool_mint_xsos input) =
      Build.initialize_pool rt ids codec pool token_account_sos mint_sos pool_mint_xsos input
  build (stake_start pool transit pool_token transit_token mint_sos user_wallet user_token input) =
      Build.stake_start rt ids codec pool transit pool_token transit_token mint_sos user_wallet
        user_token input
  build (stake_finish pool pool_token transit transit_token user_token user_wallet pool_mint_xsos) =
      Build.stake_finish rt ids codec pool pool_token transit transit_token user_token user_wallet
        pool_mint_xsos
  build
        (unstake_start pool pool_token transit transit_token mint_sos user_wallet user_token
          mint_xsos input) =
      Build.unstake_start rt ids codec pool pool_token transit transit_token mint_sos user_wallet
        user_token mint_xsos input
  build (unstake_finish pool transit transit_token user_wallet user_token) =
      Build.unstake_finish rt ids codec pool transit transit_token user_wallet user_token
  build (initialize_lock pool user_wallet pool_mint_xsos lock_token) =
      Build.initialize_lock rt ids codec pool user_wallet pool_mint_xsos lock_token
  build (lock pool user_wallet lock_token user_token input) =
      Build.lock rt ids codec pool user_wallet lock_token user_token input
  build (unlock pool user_wallet lock_token user_token input) =
      Build.unlock rt ids codec pool user_wallet lock_token user_token input
  build (start_pool pool market_authority input) =
      Build.start_pool rt ids codec pool market_authority input

  module _ (signed : Pubkey → Bool) where
    -- The accounts of a lock by their roles.
    abbrev lock_accounts :
        (pool user_wallet lock_token user_token pool_lock : Pubkey) → Lock.LockAccounts
    lock_accounts pool user_wallet lock_token user_token pool_lock = record {
      pool = info signed pool;
      user_wallet = info signed user_wallet;
      pool_lock = info signed pool_lock;
      pool_user_authority = info signed (find_2key_program_address rt pool user_wallet);
      pool_lock_token_account_xsos = info signed lock_token;
      user_token_account_xsos = info signed user_token;
      clock = info signed ids.clock;
    }

    -- What a request asks for: the handler, on the accounts of the names that the request gives them.
    abbrev pub run : Request → World → Result World
    run (initialize_pool pool token_account_sos mint_sos pool_mint_xsos input) w =
        Initialize.initialize_pool rt cs program_id
          (record {
            pool = info signed pool;
            token_account_sos = info signed token_account_sos;
            mint_sos = info signed mint_sos;
            pool_mint_xsos = info signed pool_mint_xsos;
            program_authority = info signed (find_key_program_address rt pool);
            rent = info signed ids.rent;
          })
          input w
    run (stake_start pool transit pool_token transit_token mint_sos user_wallet user_token input)
          w =
        Stake.stake_start rt cs program_id
          (record {
            pool = info signed pool;
            pool_transit = info signed transit;
            pool_authority = info signed (find_key_program_address rt pool);
            pool_token_account_sos = info signed pool_token;
            pool_transit_token_account_sos = info signed transit_token;
            mint_sos = info signed mint_sos;
            user_wallet = info signed user_wallet;
            user_token_account_sos = info signed user_token;
            rent = info signed ids.rent;
            clock = info signed ids.clock;
          })
          input w
    run (stake_finish pool pool_token transit transit_token user_token user_wallet pool_mint_xsos)
          w =
        Stake.stake_finish rt cs program_id
          (record {
            pool = info signed pool;
            pool_authority = info signed (find_key_program_address rt pool);
            pool_token_account_sos = info signed pool_token;
            pool_transit = info signed transit;
            pool_transit_token_account_sos = info signed transit_token;
            user_token_account_xsos = info signed user_token;
            user_wallet = info signed user_wallet;
            pool_mint_xsos = info signed pool_mint_xsos;
            clock = info signed ids.clock;
          })
          w
    run
          (unstake_start pool pool_token transit transit_token mint_sos user_wallet user_token
            mint_xsos input)
          w =
        Unstake.unstake_start rt cs program_id
          (record {
            pool = info signed pool;
            pool_authority = info signed (find_key_program_address rt pool);
            pool_token_account_sos = info signed pool_token;
            pool_transit = info signed transit;
            pool_transit_token_account_sos = info signed transit_token;
            mint_sos = info signed mint_sos;
            user_wallet = info signed user_wallet;
            user_token_account_xsos = info signed user_token;
            mint_xsos = info signed mint_xsos;
            rent = info signed ids.rent;
            clock = info signed ids.clock;
          })
          input w
    run (unstake_finish pool transit transit_token user_wallet user_token) w =
        Unstake.unstake_finish rt cs program_id
          (record {
            pool = info signed pool;
            pool_transit = info signed transit;
            pool_authority = info signed (find_key_program_address rt pool);
            pool_transit_token_account_sos = info signed transit_token;
            user_wallet = info signed user_wallet;
            user_token_account_sos = info signed user_token;
            clock = info signed ids.clock;
          })
          w
    run (initialize_lock pool user_wallet pool_mint_xsos lock_token) w = do
      pool_lock ←
          rt.create_with_seed (find_2key_program_address rt pool user_wallet) lock_seed program_id
      Initialize.initialize_lock rt cs program_id
          (record {
            pool = info signed pool;
            user_wallet = info signed user_wallet;
            pool_lock = info signed pool_lock;
            pool_user_authority = info signed (find_2key_program_address rt pool user_wallet);
            pool_mint_xsos = info signed pool_mint_xsos;
            pool_lock_token_account_xsos = info signed lock_token;
            rent = info signed ids.rent;
          })
          w
    run (lock pool user_wallet lock_token user_token input) w = do
      pool_lock ←
          rt.create_with_seed (find_2key_program_address rt pool user_wallet) lock_seed program_id
      Lock.lock rt cs program_id (lock_accounts pool user_wallet lock_token user_token pool_lock)
          input w
    run (unlock pool user_wallet lock_token user_token input) w = do
      pool_lock ←
          rt.create_with_seed (find_2key_program_address rt pool user_wallet) lock_seed program_id
      Lock.unlock rt cs program_id (lock_accounts pool user_wallet lock_token user_token pool_lock)
          input w
    run (start_pool pool market_authority input) w =
        Start.start_pool rt cs program_id
          (record {
            pool = info signed pool;
            market_authority = info signed market_authority;
            clock = info signed ids.clock;
          })
          input w
