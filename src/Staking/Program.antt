-- ===== src/Staking/Program.antt =====
-- staking/program/src/lib.rs and utils/program.rs: the program's key, derived keys, and the creation of
-- derived accounts.
use Prim.Native.String.{String}
use solstarter.Common.{ℕ, List, [], ◌∷◌, ◌==◌, if◌then◌else◌}
use solstarter.Solana.{
  Pubkey, World, AccountInfo, Runtime, Seed, create_account_with_seed, Result, ok, err,
}
use solstarter.Staking.Error.{derived_account_key_is_not_equal_to_calculated, into}

abbrev pub program_id : Pubkey
program_id = 0x8a0f42fce487d6f6a9ede52d831d5a7d6ad9b372b6be6cb8cefc2393cf0c3915

abbrev pub tiers_count : ℕ
tiers_count = 4

abbrev pub lock_seed : String
lock_seed = "LOCK"

module _ (rt : Runtime) where
  abbrev pub find_key_program_address : Pubkey → Pubkey → Pubkey × ℕ
  find_key_program_address key owner = rt.find_program_address (key ∷ []) owner

  abbrev pub find_2key_program_address : Pubkey → Pubkey → Pubkey → Pubkey × ℕ
  find_2key_program_address key1 key2 owner = rt.find_program_address (key1 ∷ key2 ∷ []) owner

  -- `AccountPatterns::is_derived`: the bump seed, if the account's key is derived from `owner`.
  abbrev pub is_derived : AccountInfo → Pubkey → Pubkey → Result ℕ
  is_derived a owner program =
      let (expected_key, seed) = find_key_program_address owner program in
      if a.key == expected_key
      then ok seed
      else err (into derived_account_key_is_not_equal_to_calculated)

  abbrev pub create_account_with_seed_signed :
      AccountInfo
      → AccountInfo
      → AccountInfo
      → String
      → ℕ
      → ℕ
      → Pubkey
      → List Seed
      → World
      → Result World
  create_account_with_seed_signed from_account to_account base seed lamports space program_owner
        signature w =
      rt.invoke_signed
        (create_account_with_seed from_account.key to_account.key base.key seed lamports space
          program_owner)
        (from_account ∷ to_account ∷ base ∷ []) signature w
