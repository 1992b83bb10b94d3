-- ===== src/Solana/Outside.antt =====
-- The code outside the repository that the programs call: the runtime, the system and token
-- programs, and the codecs that borsh derives.
use Prim.Native.String.{String}
use solstarter.Common.{ℕ, ℤ, List, Option}
use solstarter.Solana.Outcome.{Result}
use solstarter.Solana.Store.{
  Pubkey, Bytes, Account, World, AccountInfo, Clock, Rent, TokenAccount, Mint,
}

-- A seed of a program derived address, as it signs a call.
pub data Seed : Type 0 where
  key_seed : Pubkey → Seed
  bump_seed : ℕ → Seed

-- The instructions that the programs build for other programs, with the builders' arguments.
pub data Call : Type 0 where
  create_account : Pubkey → Pubkey → ℕ → ℕ → Pubkey → Call
  transfer_lamports : Pubkey → Pubkey → ℕ → Call
  create_account_with_seed : Pubkey → Pubkey → Pubkey → String → ℕ → ℕ → Pubkey → Call
  initialize_account : Pubkey → Pubkey → Pubkey → Call
  initialize_mint : Pubkey → Pubkey → ℕ → Call
  transfer : Pubkey → Pubkey → Pubkey → List Pubkey → ℕ → Call
  mint_to : Pubkey → Pubkey → Pubkey → List Pubkey → ℕ → Call
  burn : Pubkey → Pubkey → Pubkey → List Pubkey → ℕ → Call
  start_pool : Pubkey → Pubkey → ℤ → Call

pub record Runtime : Type 0 where
  -- `Clock::from_account_info`, `Rent::from_account_info`.
  pub clock_from : AccountInfo → Account → Result Clock
  pub rent_from : AccountInfo → Account → Result Rent
  -- `unpack` and `unpack_from_slice` of token accounts and mints.
  pub unpack_account : Bytes → Result TokenAccount
  pub unpack_account_from_slice : Bytes → Result TokenAccount
  pub unpack_mint : Bytes → Result Mint
  pub unpack_mint_from_slice : Bytes → Result Mint
  -- `Pubkey::find_program_address` over keys as seeds, and `Pubkey::create_with_seed`.
  pub find_program_address : List Pubkey → Pubkey → Pubkey × ℕ
  pub create_with_seed : Pubkey → String → Pubkey → Result Pubkey
  -- `SystemError::AccountAlreadyInUse` as a number.
  pub account_already_in_use : ℕ
  -- Builds and runs an instruction of another program, with the accounts and signatures given.
  pub invoke_signed : Call → List AccountInfo → List Seed → World → Result World

-- `try_from_slice` and `serialize` of a type, as borsh derives them.
pub record Codec (A : Type 0) : Type 0 where
  pub try_from_slice : Bytes → Option A
  pub serialize : A → Bytes → Option Bytes
