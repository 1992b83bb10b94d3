-- ===== src/Ido/Processor/Kyc.antt =====
-- `create_market_user_kyc` and `delete_market_user_kyc` of ido/program/src/processor.rs.
pub mod Verifies
use solstarter.Common.{ℕ, ◌∷◌, [], ltb_ℤ, wrapping_add, ◌==◌, if◌then◌else◌}
use solstarter.Solana.{
  Pubkey, World, update, AccountInfo, Runtime, key_seed, bump_seed, Result, ok, panic, fail_if,
  ◌>>=◌, ◌>>◌, is_owner, same_key, read_unwrap, write,
}
use solstarter.Staking.Program.{find_2key_program_address, create_account_with_seed_signed}
use solstarter.Ido.Error.{
  input_time_must_be_in_future, market_authority_must_be_derived_from_market, wrong_kyc_account,
  into,
}
use solstarter.Ido.Instruction.{CreateMarketUserKyc}
use solstarter.Ido.State.{check_uninitialized, user_kyc_version}
use solstarter.Ido.Processor.Shared.{Codecs, validate_market_owner, kyc_seed}

pub record CreateKycAccounts : Type 0 where
  pub market : AccountInfo
  pub market_user_authority : AccountInfo
  pub market_user_kyc : AccountInfo
  pub market_owner : AccountInfo
  pub user_wallet : AccountInfo
  pub rent : AccountInfo
  pub clock : AccountInfo

pub record DeleteKycAccounts : Type 0 where
  pub market : AccountInfo
  pub market_user_authority : AccountInfo
  pub market_user_kyc : AccountInfo
  pub market_owner : AccountInfo
  pub user_wallet : AccountInfo

abbrev pub market_user_kyc_len : ℕ
market_user_kyc_len = 73

-- Moves all lamports. Borrowing one account twice panics.
unfoldable pub burn_account : AccountInfo → AccountInfo → World → Result World
burn_account burned beneficiary w =
    if burned.key == beneficiary.key
    then panic
    else let from = w burned.key in
      let to = w beneficiary.key in
      ok (
        update
          (update w beneficiary.key
            (record to { lamports = wrapping_add 64 to.lamports from.lamports }))
          burned.key (record from { lamports = 0 }))

module _ (rt : Runtime) (cs : Codecs) (program_id : Pubkey) where
  unfoldable pub create_market_user_kyc :
      CreateKycAccounts → CreateMarketUserKyc → World → Result World
  unfolding check_uninitialized
  create_market_user_kyc a input w = do
    is_owner program_id (a.market ∷ []) w
    rent ← rt.rent_from a.rent (w a.rent.key)
    _ ← validate_market_owner cs a.market a.market_owner w
    clock ← rt.clock_from a.clock (w a.clock.key)
    fail_if (ltb_ℤ input.expiration clock.unix_timestamp) (into input_time_must_be_in_future)
    let (market_user_authority_key, bump) =
        find_2key_program_address rt a.market.key a.user_wallet.key program_id
    same_key market_user_authority_key a.market_user_authority
        (into market_authority_must_be_derived_from_market)
    market_user_kyc_key ← rt.create_with_seed a.market_user_authority.key kyc_seed program_id
    same_key market_user_kyc_key a.market_user_kyc (into wrong_kyc_account)
    w₁ ←
        create_account_with_seed_signed rt a.market_owner a.market_user_kyc a.market_user_authority
          kyc_seed (rent.minimum_balance market_user_kyc_len) market_user_kyc_len program_id
          (key_seed a.market.key ∷ key_seed a.user_wallet.key ∷ bump_seed bump ∷ []) w
    user_kyc_state ← read_unwrap cs.market_user_kyc a.market_user_kyc w₁
    check_uninitialized user_kyc_state.version
    write cs.market_user_kyc
        (record {
          version = user_kyc_version;
          market = a.market.key;
          user_wallet = a.user_wallet.key;
          expiration = input.expiration;
        })
        a.market_user_kyc w₁

  unfoldable pub delete_market_user_kyc : DeleteKycAccounts → World → Result World
  unfolding burn_account
  delete_market_user_kyc a w = do
    is_owner program_id (a.market ∷ a.market_user_kyc ∷ []) w
    _ ← validate_market_owner cs a.market a.market_owner w
    let market_user_authority_key =
        (find_2key_program_address rt a.market.key a.user_wallet.key program_id).0
    same_key market_user_authority_key a.market_user_authority
        (into market_authority_must_be_derived_from_market)
    market_user_kyc_key ← rt.create_with_seed a.market_user_authority.key kyc_seed program_id
    same_key market_user_kyc_key a.market_user_kyc (into wrong_kyc_account)
    burn_account a.market_user_kyc a.market_owner w
