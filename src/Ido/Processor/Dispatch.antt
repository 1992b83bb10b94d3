-- ===== src/Ido/Processor/Dispatch.antt =====
-- `process_instruction` of ido/program/src/processor.rs: an instruction's data is decoded, and its
-- accounts are named by their positions.
pub mod Requests
pub mod Built
pub mod Few
use solstarter.Common.{List, [], ◌∷◌, get_elem?}
use solstarter.Solana.{
  Pubkey, Bytes, World, AccountInfo, Runtime, Result, err, ok_or, ◌>>=◌, not_enough_account_keys,
  invalid_instruction_data, InstructionCodec,
}
use solstarter.Ido.Instruction.{Instruction}
use solstarter.Ido.Processor.Shared.{Codecs}
use solstarter.Ido.Processor.Initialize
use solstarter.Ido.Processor.Participate
use solstarter.Ido.Processor.Settle
use solstarter.Ido.Processor.Kyc
use solstarter.Ido.Processor.Start

module _ (rt : Runtime) (cs : Codecs) (program_id : Pubkey) where
  unfoldable pub dispatch : Instruction → List AccountInfo → World → Result World
  dispatch (Instruction.initialize_market input) (market ∷ market_owner ∷ rent ∷ _) w =
      Initialize.initialize_market rt cs program_id
        (record { market = market; market_owner = market_owner; rent = rent }) input w
  dispatch (Instruction.initialize_pool input)
        (market ∷ pool ∷ market_owner ∷ mint_collection ∷ mint_distribution ∷ account_collection
          ∷ account_distribution ∷ mint_pool ∷ pool_authority ∷ rent ∷ clock ∷ token_program
          ∷ system_program ∷ rest)
        w =
      let accounts =
        market ∷ pool ∷ market_owner ∷ mint_collection ∷ mint_distribution ∷ account_collection
        ∷ account_distribution ∷ mint_pool ∷ pool_authority ∷ rent ∷ clock ∷ token_program
        ∷ system_program ∷ rest in
      Initialize.initialize_pool rt cs program_id
        (record {
          market = market;
          pool = pool;
          market_owner = market_owner;
          mint_collection = mint_collection;
          mint_distribution = mint_distribution;
          account_collection = account_collection;
          account_distribution = account_distribution;
          mint_pool = mint_pool;
          pool_authority = pool_authority;
          rent = rent;
          clock = clock;
          mint_whitelist = get_elem? accounts 13;
        })
        input w
  dispatch (Instruction.participate input)
        (market ∷ pool ∷ pool_authority ∷ pool_user_authority ∷ user_wallet ∷ user_account_from
          ∷ account_collection ∷ user_account_to ∷ pool_lock_account ∷ mint_pool ∷ market_user_kyc
          ∷ user_pool_stage ∷ pool_lock ∷ stake_pool ∷ token_program_id ∷ system_program ∷ rent
          ∷ clock ∷ rest)
        w =
      let accounts =
        market ∷ pool ∷ pool_authority ∷ pool_user_authority ∷ user_wallet ∷ user_account_from
        ∷ account_collection ∷ user_account_to ∷ pool_lock_account ∷ mint_pool ∷ market_user_kyc
        ∷ user_pool_stage ∷ pool_lock ∷ stake_pool ∷ token_program_id ∷ system_program ∷ rent
        ∷ clock ∷ rest in
      Participate.participate rt cs program_id
        (record {
          market = market;
          pool = pool;
          pool_authority = pool_authority;
          pool_user_authority = pool_user_authority;
          user_wallet = user_wallet;
          user_account_from = user_account_from;
          account_collection = account_collection;
          user_account_to = user_account_to;
          pool_lock_account = pool_lock_account;
          mint_pool = mint_pool;
          market_user_kyc = market_user_kyc;
          user_pool_stage = user_pool_stage;
          pool_lock = pool_lock;
          stake_pool = stake_pool;
          rent = rent;
          clock = clock;
          account_whitelist = get_elem? accounts 18;
          account_mint_whitelist = get_elem? accounts 19;
        })
        input w
  dispatch Instruction.claim
        (market ∷ pool ∷ pool_authority ∷ account_from ∷ user_authority ∷ mint_pool ∷ account_pool
          ∷ account_to ∷ token_program_id ∷ clock ∷ _)
        w =
      Settle.claim rt cs program_id
        (record {
          market = market;
          pool = pool;
          pool_authority = pool_authority;
          account_from = account_from;
          user_authority = user_authority;
          mint_pool = mint_pool;
          account_pool = account_pool;
          account_to = account_to;
          clock = clock;
        })
        w
  dispatch Instruction.add_to_whitelist
        (pool ∷ pool_authority ∷ pool_owner ∷ account_whitelist ∷ mint_whitelist ∷ token_program
          ∷ _)
        w =
      Settle.add_to_whitelist rt cs program_id
        (record {
          pool = pool;
          pool_authority = pool_authority;
          pool_owner = pool_owner;
          account_whitelist = account_whitelist;
          mint_whitelist = mint_whitelist;
        })
        w
  dispatch Instruction.withdraw
        (market ∷ pool ∷ pool_authority ∷ pool_owner ∷ account_from ∷ account_to ∷ token_program
          ∷ clock ∷ _)
        w =
      Settle.withdraw rt cs program_id
        (record {
          market = market;
          pool = pool;
          pool_authority = pool_authority;
          pool_owner = pool_owner;
          account_from = account_from;
          account_to = account_to;
          clock = clock;
        })
        w
  dispatch (Instruction.create_market_user_kyc input)
        (market ∷ market_user_authority ∷ market_user_kyc ∷ market_owner ∷ user_wallet ∷ rent
          ∷ clock ∷ system_program ∷ _)
        w =
      Kyc.create_market_user_kyc rt cs program_id
        (record {
          market = market;
          market_user_authority = market_user_authority;
          market_user_kyc = market_user_kyc;
          market_owner = market_owner;
          user_wallet = user_wallet;
          rent = rent;
          clock = clock;
        })
        input w
  dispatch Instruction.delete_market_user_kyc
        (market ∷ market_user_authority ∷ market_user_kyc ∷ market_owner ∷ user_wallet
          ∷ system_program ∷ _)
        w =
      Kyc.delete_market_user_kyc rt cs program_id
        (record {
          market = market;
          market_user_authority = market_user_authority;
          market_user_kyc = market_user_kyc;
          market_owner = market_owner;
          user_wallet = user_wallet;
        })
        w
  dispatch Instruction.start_pool
        (market ∷ market_or_pool_owner ∷ stake_pool ∷ market_authority ∷ pool ∷ clock
          ∷ staking_program ∷ _)
        w =
      Start.start_pool rt cs program_id
        (record {
          market = market;
          market_or_pool_owner = market_or_pool_owner;
          stake_pool = stake_pool;
          market_authority = market_authority;
          pool = pool;
          clock = clock;
        })
        w
  dispatch _ _ w = err not_enough_account_keys

  unfoldable pub process_instruction :
      InstructionCodec Instruction → List AccountInfo → Bytes → World → Result World
  unfolding dispatch
  process_instruction codec accounts input w = do
    instruction ← ok_or (codec.decode input) invalid_instruction_data
    dispatch instruction accounts w
