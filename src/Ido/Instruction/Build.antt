-- ===== src/Ido/Instruction/Build.antt =====
-- The builders of instructions in ido/program/src/instruction.rs.
use Prim.Native.String.{String}
use solstarter.Common.{ℕ, true, false, Option, none, some, List, [], ◌∷◌, ◌++◌}
use solstarter.Solana.{
  Pubkey, Runtime, Result, ok, ok_or, ◌>>=◌, invalid_argument, AccountMeta, new, new_readonly,
  SolanaInstruction, ProgramIds, InstructionCodec, new_with_borsh,
}
use solstarter.Staking.Program
use solstarter.Staking.Program.{find_key_program_address, find_2key_program_address}
use solstarter.Ido.Instruction.{
  Instruction, InitializeMarket, InitializePool, Participate, CreateMarketUserKyc,
}
use solstarter.Ido.Processor.Shared
use solstarter.Ido.Processor.Shared.{kyc_seed}

-- `if let Some(key) = key { accounts.push(AccountMeta::new(key, false)) }`, as what is pushed.
abbrev pub pushed : Option Pubkey → List AccountMeta
pushed none = []
pushed (some key) = new key false ∷ []

-- `user.unwrap_or(default)`.
abbrev pub unwrap_or : Option Pubkey → Pubkey → Pubkey
unwrap_or none default = default
unwrap_or (some key) default = key

-- `format` is `format!("{}", stage)`.
module _ (rt : Runtime) (ids : ProgramIds) (codec : InstructionCodec Instruction)
    (format : ℕ → String) (program_id : Pubkey) where
  unfoldable pub initialize_market :
      (market market_owner : Pubkey) → InitializeMarket → Result SolanaInstruction
  initialize_market market market_owner input =
      new_with_borsh codec program_id (Instruction.initialize_market input)
        (new market false ∷ new_readonly market_owner true ∷ new_readonly ids.rent false ∷ [])

  unfoldable pub initialize_pool :
      (pool market market_owner mint_collection mint_distribution account_collection : Pubkey)
      (account_distribution mint_pool : Pubkey)
      → Option Pubkey
      → InitializePool
      → Result SolanaInstruction
  initialize_pool pool market market_owner mint_collection mint_distribution account_collection
        account_distribution mint_pool mint_whitelist input =
      new_with_borsh codec program_id (Instruction.initialize_pool input) (
        (new_readonly market false
          ∷ new pool false
          ∷ new_readonly market_owner true
          ∷ new_readonly mint_collection false
          ∷ new_readonly mint_distribution false
          ∷ new account_collection false
          ∷ new account_distribution false
          ∷ new mint_pool false
          ∷ new_readonly (find_key_program_address rt pool program_id).0 false
          ∷ new_readonly ids.rent false
          ∷ new_readonly ids.clock false
          ∷ new_readonly ids.spl_token false
          ∷ new_readonly ids.system_program false
          ∷ [])
        ++ pushed mint_whitelist)

  unfoldable pub participate :
      (pool market user_wallet user_account_from account_collection user_account_to : Pubkey)
      (pool_lock_account mint_pool pool_lock stake_pool : Pubkey)
      (market_user_kyc account_whitelist mint_whitelist : Option Pubkey)
      → Participate
      → ℕ
      → Result SolanaInstruction
  participate pool market user_wallet user_account_from account_collection user_account_to
        pool_lock_account mint_pool pool_lock stake_pool market_user_kyc account_whitelist
        mint_whitelist input stage =
      do
        let pool_user_authority = (find_2key_program_address rt pool user_wallet program_id).0
        user_pool_stage ← rt.create_with_seed pool_user_authority (format stage) program_id
        new_with_borsh codec program_id (Instruction.participate input) (
            (new_readonly market false
              ∷ new pool false
              ∷ new_readonly (find_key_program_address rt pool program_id).0 false
              ∷ new_readonly pool_user_authority false
              ∷ new user_wallet true
              ∷ new user_account_from false
              ∷ new account_collection false
              ∷ new user_account_to false
              ∷ new_readonly pool_lock_account false
              ∷ new mint_pool false
              ∷ new_readonly (unwrap_or market_user_kyc user_wallet) false
              ∷ new user_pool_stage false
              ∷ new_readonly pool_lock false
              ∷ new_readonly stake_pool false
              ∷ new_readonly ids.spl_token false
              ∷ new_readonly ids.system_program false
              ∷ new_readonly ids.rent false
              ∷ new_readonly ids.clock false
              ∷ [])
            ++ (pushed account_whitelist ++ pushed mint_whitelist))

  unfoldable pub claim :
      (pool market account_from user_authority mint_pool account_pool account_to : Pubkey)
      → Result SolanaInstruction
  claim pool market account_from user_authority mint_pool account_pool account_to =
      new_with_borsh codec program_id Instruction.claim (
        new_readonly market false
        ∷ new_readonly pool false
        ∷ new_readonly (find_key_program_address rt pool program_id).0 false
        ∷ new account_from false
        ∷ new_readonly user_authority true
        ∷ new mint_pool false
        ∷ new account_pool false
        ∷ new account_to false
        ∷ new ids.spl_token false
        ∷ new_readonly ids.clock false
        ∷ [])

  unfoldable pub add_to_whitelist :
      (pool pool_owner account_whitelist mint_whitelist : Pubkey) → Result SolanaInstruction
  add_to_whitelist pool pool_owner account_whitelist mint_whitelist =
      new_with_borsh codec program_id Instruction.add_to_whitelist (
        new_readonly pool false
        ∷ new_readonly (find_key_program_address rt pool program_id).0 false
        ∷ new_readonly pool_owner true
        ∷ new account_whitelist false
        ∷ new mint_whitelist false
        ∷ new_readonly ids.spl_token false
        ∷ new_readonly ids.clock false
        ∷ [])

  unfoldable pub withdraw :
      (pool market pool_owner account_from account_to : Pubkey) → Result SolanaInstruction
  withdraw pool market pool_owner account_from account_to = do
    bytes ← ok_or (codec.try_to_vec Instruction.withdraw) invalid_argument
    ok (record {
      program_id = program_id;
      accounts =
          new_readonly market false
          ∷ new_readonly pool false
          ∷ new_readonly (find_key_program_address rt pool program_id).0 false
          ∷ new_readonly pool_owner true
          ∷ new account_from false
          ∷ new account_to false
          ∷ new ids.spl_token false
          ∷ new_readonly ids.clock false
          ∷ [];
      bytes = bytes;
    })

  unfoldable pub create_market_user_kyc :
      (market market_owner user_wallet : Pubkey) → CreateMarketUserKyc → Result SolanaInstruction
  create_market_user_kyc market market_owner user_wallet input = do
    let market_user_authority_key =
        (find_2key_program_address rt market user_wallet Shared.program_id).0
    market_user_kyc ← rt.create_with_seed market_user_authority_key kyc_seed Shared.program_id
    new_with_borsh codec Shared.program_id (Instruction.create_market_user_kyc input) (
        new_readonly market false
        ∷ new_readonly market_user_authority_key false
        ∷ new market_user_kyc false
        ∷ new_readonly market_owner true
        ∷ new_readonly user_wallet false
        ∷ new_readonly ids.rent false
        ∷ new_readonly ids.clock false
        ∷ new_readonly ids.system_program false
        ∷ [])

  unfoldable pub delete_market_user_kyc :
      (market market_owner user_wallet : Pubkey) → Result SolanaInstruction
  delete_market_user_kyc market market_owner user_wallet = do
    let market_user_authority_key =
        (find_2key_program_address rt market user_wallet Shared.program_id).0
    market_user_kyc ← rt.create_with_seed market_user_authority_key kyc_seed Shared.program_id
    new_with_borsh codec program_id Instruction.delete_market_user_kyc (
        new_readonly market false
        ∷ new_readonly market_user_authority_key false
        ∷ new market_user_kyc false
        ∷ new_readonly market_owner true
        ∷ new_readonly user_wallet false
        ∷ new_readonly ids.system_program false
        ∷ [])

  unfoldable pub start_pool :
      (market_or_pool_owner stake_pool market pool : Pubkey) → Result SolanaInstruction
  start_pool market_or_pool_owner stake_pool market pool =
      new_with_borsh codec program_id Instruction.start_pool (
        new_readonly market false
        ∷ new_readonly market_or_pool_owner true
        ∷ new stake_pool false
        ∷ new (find_key_program_address rt market Shared.program_id).0 false
        ∷ new pool false
        ∷ new_readonly ids.clock false
        ∷ new_readonly Program.program_id false
        ∷ [])
