-- ===== src/Solana/Laws.antt =====
-- What the programs rely on of the code outside the repository, as hypotheses of theorems.
use Prim.Native.String.{String}
use solstarter.Common.{ℕ, ◌+◌, ◌≡◌, ◌≢◌, some, List}
use solstarter.Solana.Outcome.{ok}
use solstarter.Solana.Store.{Pubkey, Bytes, Account, World, AccountInfo, TokenAccount}
use solstarter.Solana.Outside.{
  Call, create_account, transfer_lamports, create_account_with_seed, initialize_account,
  initialize_mint, transfer, mint_to, burn, start_pool, Runtime, Seed, Codec,
}

module _ (system_program token_program staking_program : Pubkey) where
  -- The program that runs a call.
  abbrev pub callee : Call → Pubkey
  callee (create_account_with_seed _ _ _ _ _ _ _) = system_program
  callee (create_account _ _ _ _ _) = system_program
  callee (transfer_lamports _ _ _) = system_program
  callee (start_pool _ _ _) = staking_program
  callee (initialize_account _ _ _) = token_program
  callee (initialize_mint _ _ _) = token_program
  callee (transfer _ _ _ _ _) = token_program
  callee (mint_to _ _ _ _ _) = token_program
  callee (burn _ _ _ _ _) = token_program

  -- The rule of the Solana runtime that only the owner of an account changes its data and its owner.
  pub record IsIsolated (rt : Runtime) : Type 0 where
    pub keeps_foreign :
        (c : Call) (accounts : List AccountInfo) (seeds : List Seed) (w w' : World) (k : Pubkey)
        → rt.invoke_signed c accounts seeds w ≡ ok w'
        → (w k).owner ≢ callee c
        → ((w' k).owner ≡ (w k).owner) × ((w' k).bytes ≡ (w k).bytes)

-- An account that the system program creates belongs to the owner given.
pub record IsSystem (rt : Runtime) : Type 0 where
  pub creates :
      (source created base : Pubkey) (seed : String) (lamports space : ℕ) (owner : Pubkey)
      (accounts : List AccountInfo) (seeds : List Seed) (w w' : World)
      → rt.invoke_signed
          (create_account_with_seed source created base seed lamports space owner)
          accounts
          seeds
          w
        ≡ ok w'
      → (w' created).owner ≡ owner

-- An account that the system program creates belonged to the system program before: it refuses to create
-- one that is in use.
pub record IsSystemFree (system_program : Pubkey) (rt : Runtime) : Type 0 where
  pub was_free :
      (source created base : Pubkey) (seed : String) (lamports space : ℕ) (owner : Pubkey)
      (accounts : List AccountInfo) (seeds : List Seed) (w w' : World)
      → rt.invoke_signed
          (create_account_with_seed source created base seed lamports space owner)
          accounts
          seeds
          w
        ≡ ok w'
      → (w created).owner ≡ system_program

-- A transfer of the token program between two accounts lowers the amount of the first and raises that
-- of the second; minting changes no account but the mint and the destination; `unpack` checks more than
-- `unpack_from_slice` and otherwise agrees with it.
pub record IsToken (rt : Runtime) : Type 0 where
  pub unpacks :
      (b : Bytes) (t : TokenAccount)
      → rt.unpack_account b ≡ ok t
      → rt.unpack_account_from_slice b ≡ ok t
  pub mints :
      (mint destination authority : Pubkey) (signers : List Pubkey) (amount : ℕ)
      (accounts : List AccountInfo) (seeds : List Seed) (w w' : World) (k : Pubkey)
      → rt.invoke_signed (mint_to mint destination authority signers amount) accounts seeds w
        ≡ ok w'
      → k ≢ mint
      → k ≢ destination
      → (w' k).bytes ≡ (w k).bytes
  pub debits :
      (source destination authority : Pubkey) (signers : List Pubkey) (amount : ℕ)
      (accounts : List AccountInfo) (seeds : List Seed) (w w' : World) (t : TokenAccount)
      → rt.invoke_signed (transfer source destination authority signers amount) accounts seeds w
        ≡ ok w'
      → source ≢ destination
      → rt.unpack_account (w source).bytes ≡ ok t
      → (t' : TokenAccount) × (rt.unpack_account (w' source).bytes ≡ ok t')
        × (t'.amount + amount ≡ t.amount)
  pub credits :
      (source destination authority : Pubkey) (signers : List Pubkey) (amount : ℕ)
      (accounts : List AccountInfo) (seeds : List Seed) (w w' : World) (t : TokenAccount)
      → rt.invoke_signed (transfer source destination authority signers amount) accounts seeds w
        ≡ ok w'
      → source ≢ destination
      → rt.unpack_account (w destination).bytes ≡ ok t
      → (t' : TokenAccount) × (rt.unpack_account (w' destination).bytes ≡ ok t')
        × (t'.amount ≡ t.amount + amount)

-- The token program initializes an account to hold tokens of the mint given.
pub record IsTokenInit (rt : Runtime) : Type 0 where
  pub initializes :
      (account mint owner : Pubkey) (accounts : List AccountInfo) (seeds : List Seed) (w w' : World)
      → rt.invoke_signed (initialize_account account mint owner) accounts seeds w ≡ ok w'
      → (t : TokenAccount) × (rt.unpack_account (w' account).bytes ≡ ok t) × (t.mint ≡ mint)

-- What the clock shows is read from the data of its account.
pub record IsClock (rt : Runtime) : Type 0 where
  pub reads_data :
      (info : AccountInfo) (account account' : Account)
      → account.bytes ≡ account'.bytes
      → rt.clock_from info account ≡ rt.clock_from info account'

-- Burning changes no account but the one burnt from and the mint.
pub record IsTokenBurn (rt : Runtime) : Type 0 where
  pub burns :
      (account mint authority : Pubkey) (signers : List Pubkey) (amount : ℕ)
      (accounts : List AccountInfo) (seeds : List Seed) (w w' : World) (k : Pubkey)
      → rt.invoke_signed (burn account mint authority signers amount) accounts seeds w ≡ ok w'
      → k ≢ account
      → k ≢ mint
      → (w' k).bytes ≡ (w k).bytes

-- Over data that holds a value of the type, whose encodings all have one length, what is written is
-- read back.
pub record IsLawful {A : Type 0} (codec : Codec A) : Type 0 where
  pub reads_back :
      (old new : A) (b b' : Bytes)
      → codec.try_from_slice b ≡ some old
      → codec.serialize new b ≡ some b'
      → codec.try_from_slice b' ≡ some new
