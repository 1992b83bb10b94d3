-- ===== src/Staking/Processor/Dispatch.antt =====
-- `process_instruction` of staking/program/src/processor.rs: an instruction's data is decoded, and its
-- accounts are named by their positions.
pub mod Requests
pub mod Built
pub mod Few
use solstarter.Common.{List, [], ◌∷◌}
use solstarter.Solana.{
  Pubkey, Bytes, World, AccountInfo, Runtime, Result, err, ok_or, ◌>>=◌, not_enough_account_keys,
  borsh_io_error, InstructionCodec,
}
use solstarter.Staking.Instruction.{Instruction}
use solstarter.Staking.Processor.Shared.{Codecs}
use solstarter.Staking.Processor.Initialize
use solstarter.Staking.Processor.Stake
use solstarter.Staking.Processor.Unstake
use solstarter.Staking.Processor.Lock
use solstarter.Staking.Processor.Start

module _ (rt : Runtime) (cs : Codecs) (program_id : Pubkey) where
  unfoldable pub dispatch : Instruction → List AccountInfo → World → Result World
  dispatch (Instruction.initialize_pool input)
        (pool ∷ token_account_sos ∷ mint_sos ∷ pool_mint_xsos ∷ program_authority ∷ rent
          ∷ token_program ∷ _)
        w =
      Initialize.initialize_pool rt cs program_id
        (record {
          pool = pool;
          token_account_sos = token_account_sos;
          mint_sos = mint_sos;
          pool_mint_xsos = pool_mint_xsos;
          program_authority = program_authority;
          rent = rent;
        })
        input w
  dispatch (Instruction.stake_start input)
        (pool ∷ pool_transit ∷ pool_authority ∷ pool_token_account_sos
          ∷ pool_transit_token_account_sos ∷ mint_sos ∷ user_wallet ∷ user_token_account_sos ∷ rent
          ∷ clock ∷ token_program ∷ _)
        w =
      Stake.stake_start rt cs program_id
        (record {
          pool = pool;
          pool_transit = pool_transit;
          pool_authority = pool_authority;
          pool_token_account_sos = pool_token_account_sos;
          pool_transit_token_account_sos = pool_transit_token_account_sos;
          mint_sos = mint_sos;
          user_wallet = user_wallet;
          user_token_account_sos = user_token_account_sos;
          rent = rent;
          clock = clock;
        })
        input w
  dispatch Instruction.stake_finish
        (pool ∷ pool_authority ∷ pool_token_account_sos ∷ pool_transit
          ∷ pool_transit_token_account_sos ∷ user_token_account_xsos ∷ user_wallet ∷ pool_mint_xsos
          ∷ clock ∷ token_program ∷ _)
        w =
      Stake.stake_finish rt cs program_id
        (record {
          pool = pool;
          pool_authority = pool_authority;
          pool_token_account_sos = pool_token_account_sos;
          pool_transit = pool_transit;
          pool_transit_token_account_sos = pool_transit_token_account_sos;
          user_token_account_xsos = user_token_account_xsos;
          user_wallet = user_wallet;
          pool_mint_xsos = pool_mint_xsos;
          clock = clock;
        })
        w
  dispatch (Instruction.unstake_start input)
        (pool ∷ pool_authority ∷ pool_token_account_sos ∷ pool_transit
          ∷ pool_transit_token_account_sos ∷ mint_sos ∷ user_wallet ∷ user_token_account_xsos
          ∷ mint_xsos ∷ rent ∷ clock ∷ token_program ∷ _)
        w =
      Unstake.unstake_start rt cs program_id
        (record {
          pool = pool;
          pool_authority = pool_authority;
          pool_token_account_sos = pool_token_account_sos;
          pool_transit = pool_transit;
          pool_transit_token_account_sos = pool_transit_token_account_sos;
          mint_sos = mint_sos;
          user_wallet = user_wallet;
          user_token_account_xsos = user_token_account_xsos;
          mint_xsos = mint_xsos;
          rent = rent;
          clock = clock;
        })
        input w
  dispatch Instruction.unstake_finish
        (pool ∷ pool_transit ∷ pool_authority ∷ pool_transit_account_sos ∷ user_wallet
          ∷ user_token_account_sos ∷ clock ∷ token_program ∷ _)
        w =
      Unstake.unstake_finish rt cs program_id
        (record {
          pool = pool;
          pool_transit = pool_transit;
          pool_authority = pool_authority;
          pool_transit_token_account_sos = pool_transit_account_sos;
          user_wallet = user_wallet;
          user_token_account_sos = user_token_account_sos;
          clock = clock;
        })
        w
  dispatch Instruction.initialize_lock
        (pool ∷ user_wallet ∷ pool_lock ∷ pool_user_authority ∷ pool_mint_xsos
          ∷ pool_lock_token_account_xsos ∷ rent ∷ system_program ∷ token_program ∷ [])
        w =
      Initialize.initialize_lock rt cs program_id
        (record {
          pool = pool;
          user_wallet = user_wallet;
          pool_lock = pool_lock;
          pool_user_authority = pool_user_authority;
          pool_mint_xsos = pool_mint_xsos;
          pool_lock_token_account_xsos = pool_lock_token_account_xsos;
          rent = rent;
        })
        w
  dispatch (Instruction.lock input)
        (pool ∷ user_wallet ∷ pool_lock ∷ pool_user_authority ∷ pool_lock_token_account_xsos
          ∷ user_token_account_xsos ∷ clock ∷ token_program ∷ _)
        w =
      Lock.lock rt cs program_id
        (record {
          pool = pool;
          user_wallet = user_wallet;
          pool_lock = pool_lock;
          pool_user_authority = pool_user_authority;
          pool_lock_token_account_xsos = pool_lock_token_account_xsos;
          user_token_account_xsos = user_token_account_xsos;
          clock = clock;
        })
        input w
  dispatch (Instruction.unlock input)
        (pool ∷ user_wallet ∷ pool_lock ∷ pool_user_authority ∷ pool_lock_token_account_xsos
          ∷ user_token_account_xsos ∷ clock ∷ token_program ∷ _)
        w =
      Lock.unlock rt cs program_id
        (record {
          pool = pool;
          user_wallet = user_wallet;
          pool_lock = pool_lock;
          pool_user_authority = pool_user_authority;
          pool_lock_token_account_xsos = pool_lock_token_account_xsos;
          user_token_account_xsos = user_token_account_xsos;
          clock = clock;
        })
        input w
  dispatch (Instruction.start_pool input) (pool ∷ market_authority ∷ clock ∷ _) w =
      Start.start_pool rt cs program_id
        (record { pool = pool; market_authority = market_authority; clock = clock }) input w
  dispatch _ _ w = err not_enough_account_keys

  unfoldable pub process_instruction :
      InstructionCodec Instruction → List AccountInfo → Bytes → World → Result World
  unfolding dispatch
  process_instruction codec accounts input w = do
    instruction ← ok_or (codec.decode input) borsh_io_error
    dispatch instruction accounts w
