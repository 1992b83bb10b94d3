-- ===== src/Solana/Store.antt =====
-- Accounts. The accounts of a transaction live in a store by key, so two `AccountInfo`s with one
-- key share their data and lamports, as they do at run time.
use solstarter.Common.{ℕ, ℤ, Bool, List, ◌==◌, if◌then◌else◌, length}

-- A 32-byte key as a number: keys are only compared.
abbrev pub Pubkey : Type 0
Pubkey = ℕ

abbrev pub Bytes : Type 0
Bytes = List ℕ

pub record Account : Type 0 where
  pub owner : Pubkey
  pub lamports : ℕ
  pub bytes : Bytes

abbrev pub World : Type 0
World = Pubkey → Account

-- What an instruction is given of an account besides the store's entry.
pub record AccountInfo : Type 0 where
  pub key : Pubkey
  pub is_signer : Bool

abbrev pub update : World → Pubkey → Account → World
update w k a j = if j == k then a else w j

abbrev pub write_data : World → Pubkey → Bytes → World
write_data w k b = let a = w k in update w k (record a { bytes = b })

abbrev pub data_len : World → AccountInfo → ℕ
data_len w a = length (w a.key).bytes

-- The part of `solana_program::clock::Clock` that is read.
pub record Clock : Type 0 where
  pub unix_timestamp : ℤ

-- `solana_program::rent::Rent`, by its two methods that are called.
pub record Rent : Type 0 where
  pub is_exempt : ℕ → ℕ → Bool
  pub minimum_balance : ℕ → ℕ

-- The parts of `spl_token::state::Account` and `Mint` that are read.
pub record TokenAccount : Type 0 where
  pub mint : Pubkey
  pub amount : ℕ

pub record Mint : Type 0 where
  pub decimals : ℕ
  pub is_initialized : Bool
