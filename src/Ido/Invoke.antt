-- ===== src/Ido/Invoke.antt =====
-- ido/program/src/utils/invoke.rs: the calls of the token and the system program.
use solstarter.Common.{ℕ, List, [], ◌∷◌}
use solstarter.Solana.{
  Pubkey, World, AccountInfo, Runtime, Seed, transfer_lamports, key_seed, bump_seed, transfer,
  mint_to, burn, initialize_account, Result, invoke,
}
use solstarter.Solana

module _ (rt : Runtime) where
  abbrev pub initialize_token_account :
      AccountInfo → AccountInfo → AccountInfo → AccountInfo → World → Result World
  initialize_token_account account mint owner rent w =
      invoke rt (initialize_account account.key mint.key owner.key)
        (account ∷ mint ∷ owner ∷ rent ∷ []) w

  abbrev pub initialize_mint : AccountInfo → AccountInfo → ℕ → AccountInfo → World → Result World
  initialize_mint mint mint_authority decimals rent w =
      invoke rt (Solana.initialize_mint mint.key mint_authority.key decimals)
        (mint ∷ mint_authority ∷ rent ∷ []) w

  abbrev pub token_transfer :
      Pubkey → AccountInfo → AccountInfo → AccountInfo → ℕ → ℕ → World → Result World
  token_transfer pool source destination authority bump amount w =
      rt.invoke_signed
        (transfer source.key destination.key authority.key (authority.key ∷ []) amount)
        (source ∷ destination ∷ authority ∷ []) (key_seed pool ∷ bump_seed bump ∷ []) w

  abbrev pub token_transfer_with_user_authority :
      AccountInfo → AccountInfo → AccountInfo → ℕ → World → Result World
  token_transfer_with_user_authority source destination authority amount w =
      invoke rt (transfer source.key destination.key authority.key (authority.key ∷ []) amount)
        (source ∷ destination ∷ authority ∷ []) w

  abbrev pub token_mint_to :
      Pubkey → AccountInfo → AccountInfo → AccountInfo → ℕ → ℕ → World → Result World
  token_mint_to pool mint destination authority bump amount w =
      rt.invoke_signed (mint_to mint.key destination.key authority.key [] amount)
        (mint ∷ destination ∷ authority ∷ []) (key_seed pool ∷ bump_seed bump ∷ []) w

  abbrev pub burn_tokens_with_user_authority :
      AccountInfo → AccountInfo → AccountInfo → ℕ → World → Result World
  burn_tokens_with_user_authority burn_account mint authority amount w =
      invoke rt (burn burn_account.key mint.key authority.key [] amount)
        (burn_account ∷ mint ∷ authority ∷ []) w

  -- Called by nothing in the repository.
  abbrev pub create_account :
      AccountInfo → AccountInfo → ℕ → ℕ → Pubkey → List Seed → World → Result World
  create_account funder account_to_create required_lamports space owner signer_seeds w =
      rt.invoke_signed
        (Solana.create_account funder.key account_to_create.key required_lamports space owner)
        (funder ∷ account_to_create ∷ []) signer_seeds w

  -- Called by nothing in the repository.
  abbrev pub transfer_program : AccountInfo → AccountInfo → ℕ → List Seed → World → Result World
  transfer_program from to lamports signer_seeds w =
      rt.invoke_signed (transfer_lamports from.key to.key lamports) (from ∷ to ∷ []) signer_seeds w
