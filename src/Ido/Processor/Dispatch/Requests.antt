-- ===== src/Ido/Processor/Dispatch/Requests.antt =====
-- Calls of the builders of ido/program/src/instruction.rs, and what they ask for of
-- ido/program/src/processor.rs.
use Prim.Native.String.{String}
use solstarter.Common.{ℕ, Bool, true, false, Option, none, some}
use solstarter.Solana.{
  Pubkey, World, AccountInfo, Runtime, Result, ◌>>=◌, info, SolanaInstruction, ProgramIds,
  InstructionCodec,
}
use solstarter.Staking.Program.{find_key_program_address, find_2key_program_address}
use solstarter.Ido.Instruction.{
  Instruction, InitializeMarket, InitializePool, Participate, CreateMarketUserKyc,
}
use solstarter.Ido.Instruction.Build
use solstarter.Ido.Instruction.Build.{unwrap_or}
use solstarter.Ido.Processor.Shared
use solstarter.Ido.Processor.Shared.{Codecs, kyc_seed}
use solstarter.Ido.Processor.Initialize
use solstarter.Ido.Processor.Participate
use solstarter.Ido.Processor.Settle
use solstarter.Ido.Processor.Kyc
use solstarter.Ido.Processor.Start

-- A call of a builder, with its arguments by name.
pub data Request : Type 0 where
  initialize_market : (market market_owner : Pubkey) → InitializeMarket → Request
  initialize_pool :
      (pool market market_owner mint_collection mint_distribution account_collection
        account_distribution mint_pool : Pubkey)
      (mint_whitelist : Option Pubkey)
      → InitializePool
      → Request
  participate :
      (pool market user_wallet user_account_from account_collection user_account_to
        pool_lock_account mint_pool pool_lock stake_pool : Pubkey)
      (market_user_kyc account_whitelist mint_whitelist : Option Pubkey)
      → Participate
      → ℕ
      → Request
  claim :
      (pool market account_from user_authority mint_pool account_pool account_to : Pubkey) → Request
  add_to_whitelist : (pool pool_owner account_whitelist mint_whitelist : Pubkey) → Request
  withdraw : (pool market pool_owner account_from account_to : Pubkey) → Request
  create_market_user_kyc :
      (market market_owner user_wallet : Pubkey) → CreateMarketUserKyc → Request
  delete_market_user_kyc : (market market_owner user_wallet : Pubkey) → Request
  start_pool : (market_or_pool_owner stake_pool market pool : Pubkey) → Request

-- A participation that names a whitelist's mint names the whitelist's account too: the builder leaves
-- out a name that is not given, and the program reads the two accounts by position.
abbrev names_before : Option Pubkey → Option Pubkey → Bool
names_before none (some mint) = false
names_before none none = true
names_before (some account) mint = true

abbrev pub names_in_order : Request → Bool
names_in_order
      (participate pool market user_wallet user_account_from account_collection user_account_to
        pool_lock_account mint_pool pool_lock stake_pool market_user_kyc account_whitelist
        mint_whitelist input stage) =
    names_before account_whitelist mint_whitelist
names_in_order _ = true

module _ (rt : Runtime) (cs : Codecs) (ids : ProgramIds) (codec : InstructionCodec Instruction)
    (format : ℕ → String) (program_id : Pubkey) where
  abbrev pub build : Request → Result SolanaInstruction
  build (initialize_market market market_owner input) =
      Build.initialize_market rt ids codec format program_id market market_owner input
  build
        (initialize_pool pool market market_owner mint_collection mint_distribution
          account_collection account_distribution mint_pool mint_whitelist input) =
      Build.initialize_pool rt ids codec format program_id pool market market_owner mint_collection
        mint_distribution account_collection account_distribution mint_pool mint_whitelist input
  build
        (participate pool market user_wallet user_account_from account_collection user_account_to
          pool_lock_account mint_pool pool_lock stake_pool market_user_kyc account_whitelist
          mint_whitelist input stage) =
      Build.participate rt ids codec format program_id pool market user_wallet user_account_from
        account_collection user_account_to pool_lock_account mint_pool pool_lock stake_pool
        market_user_kyc account_whitelist mint_whitelist input stage
  build (claim pool market account_from user_authority mint_pool account_pool account_to) =
      Build.claim rt ids codec format program_id pool market account_from user_authority mint_pool
        account_pool account_to
  build (add_to_whitelist pool pool_owner account_whitelist mint_whitelist) =
      Build.add_to_whitelist rt ids codec format program_id pool pool_owner account_whitelist
        mint_whitelist
  build (withdraw pool market pool_owner account_from account_to) =
      Build.withdraw rt ids codec format program_id pool market pool_owner account_from account_to
  build (create_market_user_kyc market market_owner user_wallet input) =
      Build.create_market_user_kyc rt ids codec format program_id market market_owner user_wallet
        input
  build (delete_market_user_kyc market market_owner user_wallet) =
      Build.delete_market_user_kyc rt ids codec format program_id market market_owner user_wallet
  build (start_pool market_or_pool_owner stake_pool market pool) =
      Build.start_pool rt ids codec format program_id market_or_pool_owner stake_pool market pool

  module _ (signed : Pubkey → Bool) where
    abbrev infos_of : Option Pubkey → Option AccountInfo
    infos_of none = none
    infos_of (some key) = some (info signed key)

    -- What a request asks for: the handler, on the accounts of the names that the request gives them.
    abbrev pub run : Request → World → Result World
    run (initialize_market market market_owner input) w =
        Initialize.initialize_market rt cs program_id
          (record {
            market = info signed market;
            market_owner = info signed market_owner;
            rent = info signed ids.rent;
          })
          input w
    run
          (initialize_pool pool market market_owner mint_collection mint_distribution
            account_collection account_distribution mint_pool mint_whitelist input)
          w =
        Initialize.initialize_pool rt cs program_id
          (record {
            market = info signed market;
            pool = info signed pool;
            market_owner = info signed market_owner;
            mint_collection = info signed mint_collection;
            mint_distribution = info signed mint_distribution;
            account_collection = info signed account_collection;
            account_distribution = info signed account_distribution;
            mint_pool = info signed mint_pool;
            pool_authority = info signed (find_key_program_address rt pool program_id).0;
            rent = info signed ids.rent;
            clock = info signed ids.clock;
            mint_whitelist = infos_of mint_whitelist;
          })
          input w
    run
          (participate pool market user_wallet user_account_from account_collection user_account_to
            pool_lock_account mint_pool pool_lock stake_pool market_user_kyc account_whitelist
            mint_whitelist input stage)
          w =
        do
          user_pool_stage ←
              rt.create_with_seed (find_2key_program_address rt pool user_wallet program_id).0
                (format stage) program_id
          Participate.participate rt cs program_id
              (record {
                market = info signed market;
                pool = info signed pool;
                pool_authority = info signed (find_key_program_address rt pool program_id).0;
                pool_user_authority =
                    info signed (find_2key_program_address rt pool user_wallet program_id).0;
                user_wallet = info signed user_wallet;
                user_account_from = info signed user_account_from;
                account_collection = info signed account_collection;
                user_account_to = info signed user_account_to;
                pool_lock_account = info signed pool_lock_account;
                mint_pool = info signed mint_pool;
                market_user_kyc = info signed (unwrap_or market_user_kyc user_wallet);
                user_pool_stage = info signed user_pool_stage;
                pool_lock = info signed pool_lock;
                stake_pool = info signed stake_pool;
                rent = info signed ids.rent;
                clock = info signed ids.clock;
                account_whitelist = infos_of account_whitelist;
                account_mint_whitelist = infos_of mint_whitelist;
              })
              input w
    run (claim pool market account_from user_authority mint_pool account_pool account_to) w =
        Settle.claim rt cs program_id
          (record {
            market = info signed market;
            pool = info signed pool;
            pool_authority = info signed (find_key_program_address rt pool program_id).0;
            account_from = info signed account_from;
            user_authority = info signed user_authority;
            mint_pool = info signed mint_pool;
            account_pool = info signed account_pool;
            account_to = info signed account_to;
            clock = info signed ids.clock;
          })
          w
    run (add_to_whitelist pool pool_owner account_whitelist mint_whitelist) w =
        Settle.add_to_whitelist rt cs program_id
          (record {
            pool = info signed pool;
            pool_authority = info signed (find_key_program_address rt pool program_id).0;
            pool_owner = info signed pool_owner;
            account_whitelist = info signed account_whitelist;
            mint_whitelist = info signed mint_whitelist;
          })
          w
    run (withdraw pool market pool_owner account_from account_to) w =
        Settle.withdraw rt cs program_id
          (record {
            market = info signed market;
            pool = info signed pool;
            pool_authority = info signed (find_key_program_address rt pool program_id).0;
            pool_owner = info signed pool_owner;
            account_from = info signed account_from;
            account_to = info signed account_to;
            clock = info signed ids.clock;
          })
          w
    run (create_market_user_kyc market market_owner user_wallet input) w = do
      market_user_kyc ←
          rt.create_with_seed (find_2key_program_address rt market user_wallet Shared.program_id).0
            kyc_seed Shared.program_id
      Kyc.create_market_user_kyc rt cs Shared.program_id
          (record {
            market = info signed market;
            market_user_authority =
                info signed (find_2key_program_address rt market user_wallet Shared.program_id).0;
            market_user_kyc = info signed market_user_kyc;
            market_owner = info signed market_owner;
            user_wallet = info signed user_wallet;
            rent = info signed ids.rent;
            clock = info signed ids.clock;
          })
          input w
    run (delete_market_user_kyc market market_owner user_wallet) w = do
      market_user_kyc ←
          rt.create_with_seed (find_2key_program_address rt market user_wallet Shared.program_id).0
            kyc_seed Shared.program_id
      Kyc.delete_market_user_kyc rt cs program_id
          (record {
            market = info signed market;
            market_user_authority =
                info signed (find_2key_program_address rt market user_wallet Shared.program_id).0;
            market_user_kyc = info signed market_user_kyc;
            market_owner = info signed market_owner;
            user_wallet = info signed user_wallet;
          })
          w
    run (start_pool market_or_pool_owner stake_pool market pool) w =
        Start.start_pool rt cs program_id
          (record {
            market = info signed market;
            market_or_pool_owner = info signed market_or_pool_owner;
            stake_pool = info signed stake_pool;
            market_authority = info signed (find_key_program_address rt market Shared.program_id).0;
            pool = info signed pool;
            clock = info signed ids.clock;
          })
          w
