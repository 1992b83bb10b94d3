-- ===== src/Staking/Instruction/Build.antt =====
-- The builders of instructions in staking/program/src/instruction.rs.
use solstarter.Common.{true, false, [], ◌∷◌}
use solstarter.Solana.{
  Pubkey, Runtime, Result, ◌>>=◌, new, new_readonly, SolanaInstruction, ProgramIds,
  InstructionCodec, new_with_borsh,
}
use solstarter.Staking.Program
use solstarter.Staking.Program.{lock_seed, program_id}
use solstarter.Staking.Processor.Shared.{
  InitializePoolInput, StakeStartInput, UnstakeStartInput, LockInput, UnlockInput, StartPoolInput,
}
use solstarter.Staking.Instruction.{Instruction}

module _ (rt : Runtime) where
  abbrev pub find_key_program_address : Pubkey → Pubkey
  find_key_program_address owner = (Program.find_key_program_address rt owner program_id).0

  abbrev pub find_2key_program_address : Pubkey → Pubkey → Pubkey
  find_2key_program_address key1 key2 =
      (Program.find_2key_program_address rt key1 key2 program_id).0

module _ (rt : Runtime) (ids : ProgramIds) (codec : InstructionCodec Instruction) where
  unfoldable pub initialize_pool :
      (pool token_account_sos mint_sos pool_mint_xsos : Pubkey)
      → InitializePoolInput
      → Result SolanaInstruction
  initialize_pool pool token_account_sos mint_sos pool_mint_xsos input =
      new_with_borsh codec program_id (Instruction.initialize_pool input) (
        new pool false
        ∷ new token_account_sos false
        ∷ new_readonly mint_sos false
        ∷ new pool_mint_xsos false
        ∷ new_readonly (find_key_program_address rt pool) false
        ∷ new_readonly ids.rent false
        ∷ new_readonly ids.spl_token false
        ∷ [])

  unfoldable pub stake_start :
      (pool pool_transit pool_token_account_sos pool_transit_token_account_sos mint_sos
        user_wallet : Pubkey)
      (user_token_account_sos : Pubkey)
      → StakeStartInput
      → Result SolanaInstruction
  stake_start pool pool_transit pool_token_account_sos pool_transit_token_account_sos mint_sos
        user_wallet user_token_account_sos input =
      new_with_borsh codec program_id (Instruction.stake_start input) (
        new_readonly pool false
        ∷ new pool_transit false
        ∷ new_readonly (find_key_program_address rt pool) false
        ∷ new_readonly pool_token_account_sos false
        ∷ new pool_transit_token_account_sos false
        ∷ new_readonly mint_sos false
        ∷ new_readonly user_wallet true
        ∷ new user_token_account_sos false
        ∷ new_readonly ids.rent false
        ∷ new_readonly ids.clock false
        ∷ new_readonly ids.spl_token false
        ∷ [])

  unfoldable pub stake_finish :
      (pool pool_token_account_sos pool_transit pool_transit_token_account_sos : Pubkey)
      (user_token_account_xsos user_wallet pool_mint_xsos : Pubkey)
      → Result SolanaInstruction
  stake_finish pool pool_token_account_sos pool_transit pool_transit_token_account_sos
        user_token_account_xsos user_wallet pool_mint_xsos =
      new_with_borsh codec program_id Instruction.stake_finish (
        new_readonly pool false
        ∷ new_readonly (find_key_program_address rt pool) false
        ∷ new pool_token_account_sos false
        ∷ new_readonly pool_transit false
        ∷ new pool_transit_token_account_sos false
        ∷ new user_token_account_xsos false
        ∷ new_readonly user_wallet true
        ∷ new pool_mint_xsos false
        ∷ new_readonly ids.clock false
        ∷ new_readonly ids.spl_token false
        ∷ [])

  unfoldable pub unstake_start :
      (pool pool_token_account_sos pool_transit pool_transit_token_account_sos mint_sos
        user_wallet : Pubkey)
      (user_token_account_xsos mint_xsos : Pubkey)
      → UnstakeStartInput
      → Result SolanaInstruction
  unstake_start pool pool_token_account_sos pool_transit pool_transit_token_account_sos mint_sos
        user_wallet user_token_account_xsos mint_xsos input =
      new_with_borsh codec program_id (Instruction.unstake_start input) (
        new_readonly pool false
        ∷ new_readonly (find_key_program_address rt pool) false
        ∷ new pool_token_account_sos false
        ∷ new pool_transit false
        ∷ new pool_transit_token_account_sos false
        ∷ new_readonly mint_sos false
        ∷ new_readonly user_wallet true
        ∷ new user_token_account_xsos false
        ∷ new mint_xsos false
        ∷ new_readonly ids.rent false
        ∷ new_readonly ids.clock false
        ∷ new_readonly ids.spl_token false
        ∷ [])

  unfoldable pub unstake_finish :
      (pool pool_transit pool_transit_account_sos user_wallet user_token_account_sos : Pubkey)
      → Result SolanaInstruction
  unstake_finish pool pool_transit pool_transit_account_sos user_wallet user_token_account_sos =
      new_with_borsh codec program_id Instruction.unstake_finish (
        new_readonly pool false
        ∷ new_readonly pool_transit false
        ∷ new_readonly (find_key_program_address rt pool) false
        ∷ new pool_transit_account_sos false
        ∷ new_readonly user_wallet true
        ∷ new user_token_account_sos false
        ∷ new_readonly ids.clock false
        ∷ new_readonly ids.spl_token false
        ∷ [])

  unfoldable pub initialize_lock :
      (pool user_wallet pool_mint_xsos pool_lock_token_account_xsos : Pubkey)
      → Result SolanaInstruction
  initialize_lock pool user_wallet pool_mint_xsos pool_lock_token_account_xsos = do
    let pool_user_authority = find_2key_program_address rt pool user_wallet
    pool_lock ← rt.create_with_seed pool_user_authority lock_seed program_id
    new_with_borsh codec program_id Instruction.initialize_lock (
        new_readonly pool false
        ∷ new_readonly user_wallet true
        ∷ new pool_lock false
        ∷ new_readonly pool_user_authority false
        ∷ new_readonly pool_mint_xsos false
        ∷ new pool_lock_token_account_xsos false
        ∷ new_readonly ids.rent false
        ∷ new_readonly ids.system_program false
        ∷ new_readonly ids.spl_token false
        ∷ [])

  unfoldable pub lock :
      (pool user_wallet pool_lock_token_account_xsos user_token_account_xsos : Pubkey)
      → LockInput
      → Result SolanaInstruction
  lock pool user_wallet pool_lock_token_account_xsos user_token_account_xsos input = do
    let pool_user_authority = find_2key_program_address rt pool user_wallet
    pool_lock ← rt.create_with_seed pool_user_authority lock_seed program_id
    new_with_borsh codec program_id (Instruction.lock input) (
        new pool false
        ∷ new_readonly user_wallet true
        ∷ new pool_lock false
        ∷ new_readonly pool_user_authority false
        ∷ new pool_lock_token_account_xsos false
        ∷ new user_token_account_xsos false
        ∷ new_readonly ids.clock false
        ∷ new_readonly ids.spl_token false
        ∷ [])

  unfoldable pub unlock :
      (pool user_wallet pool_lock_token_account_xsos user_token_account_xsos : Pubkey)
      → UnlockInput
      → Result SolanaInstruction
  unlock pool user_wallet pool_lock_token_account_xsos user_token_account_xsos input = do
    let pool_user_authority = find_2key_program_address rt pool user_wallet
    pool_lock ← rt.create_with_seed pool_user_authority lock_seed program_id
    new_with_borsh codec program_id (Instruction.unlock input) (
        new pool false
        ∷ new_readonly user_wallet true
        ∷ new pool_lock false
        ∷ new_readonly pool_user_authority false
        ∷ new pool_lock_token_account_xsos false
        ∷ new user_token_account_xsos false
        ∷ new_readonly ids.clock false
        ∷ new_readonly ids.spl_token false
        ∷ [])

  unfoldable pub start_pool :
      (pool market_authority : Pubkey) → StartPoolInput → Result SolanaInstruction
  start_pool pool market_authority input =
      new_with_borsh codec program_id (Instruction.start_pool input)
        (new pool false ∷ new_readonly market_authority true ∷ new_readonly ids.clock false ∷ [])
