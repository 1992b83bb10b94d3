-- ===== src/Staking/Invoke.antt =====
-- staking/program/src/utils/invoke.rs: the calls of the token and the system program.
use Prim.Native.String.{String}
use solstarter.Common.{ℕ, List, [], ◌∷◌}
use solstarter.Solana.{
  Pubkey, World, AccountInfo, Runtime, Seed, key_seed, bump_seed, transfer, mint_to, burn,
  initialize_account, create_account_with_seed, Result, invoke,
}
use solstarter.Solana

module _ (rt : Runtime) where
  abbrev pub initialize_token_account :
      AccountInfo → AccountInfo → AccountInfo → AccountInfo → World → Result World
  initialize_token_account account mint owner rent w =
      invoke rt (initialize_account account.key mint.key owner.key)
        (account ∷ mint ∷ owner ∷ rent ∷ []) w

  abbrev pub initialize_mint : AccountInfo → AccountInfo → ℕ → AccountInfo → World → Result World
  initialize_mint mint mint_authority decimals rent w =
      invoke rt (Solana.initialize_mint mint.key mint_authority.key decimals)
        (mint ∷ mint_authority ∷ rent ∷ []) w

  abbrev pub token_transfer_signature :
      AccountInfo → AccountInfo → AccountInfo → List Seed → ℕ → World → Result World
  token_transfer_signature source destination owner_authority signature amount w =
      rt.invoke_signed
        (transfer source.key destination.key owner_authority.key (owner_authority.key ∷ []) amount)
        (source ∷ destination ∷ owner_authority ∷ []) signature w

  abbrev pub token_transfer_program_authority :
      Pubkey → AccountInfo → AccountInfo → AccountInfo → ℕ → ℕ → World → Result World
  token_transfer_program_authority owner source destination owner_authority bump amount w =
      token_transfer_signature source destination owner_authority
        (key_seed owner ∷ bump_seed bump ∷ []) amount w

  abbrev pub token_transfer_with_user_authority :
      AccountInfo → AccountInfo → AccountInfo → ℕ → World → Result World
  token_transfer_with_user_authority source destination authority amount w =
      invoke rt (transfer source.key destination.key authority.key (authority.key ∷ []) amount)
        (source ∷ destination ∷ authority ∷ []) w

  abbrev pub token_mint_to :
      Pubkey → AccountInfo → AccountInfo → AccountInfo → ℕ → ℕ → World → Result World
  token_mint_to pool mint destination authority bump amount w =
      rt.invoke_signed (mint_to mint.key destination.key authority.key [] amount)
        (mint ∷ destination ∷ authority ∷ []) (key_seed pool ∷ bump_seed bump ∷ []) w

  abbrev pub burn_tokens_with_user_authority :
      AccountInfo → AccountInfo → AccountInfo → ℕ → World → Result World
  burn_tokens_with_user_authority burn_account mint authority amount w =
      invoke rt (burn burn_account.key mint.key authority.key [] amount)
        (burn_account ∷ mint ∷ authority ∷ []) w

  -- Called by nothing in the repository.
  abbrev pub create_account :
      AccountInfo → AccountInfo → ℕ → ℕ → Pubkey → List Seed → World → Result World
  create_account funder account_to_create required_lamports space owner signer_seeds w =
      rt.invoke_signed
        (Solana.create_account funder.key account_to_create.key required_lamports space owner)
        (funder ∷ account_to_create ∷ []) signer_seeds w

  -- Called by nothing in the repository.
  abbrev pub create_derived_account :
      AccountInfo
      → AccountInfo
      → AccountInfo
      → String
      → ℕ
      → ℕ
      → Pubkey
      → List Seed
      → World
      → Result World
  create_derived_account payer account_to_create base seed required_lamports space owner
        signer_seeds w =
      rt.invoke_signed
        (create_account_with_seed payer.key account_to_create.key base.key seed required_lamports
          space owner)
        (payer ∷ account_to_create ∷ base ∷ []) signer_seeds w
