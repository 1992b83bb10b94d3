-- ===== src/Ido/Processor/Kyc/Verifies.antt =====
-- What the KYC records of ido/program/src/processor.rs are for: a created one lets its user participate.
use solstarter.Common.{◌≤ℤ◌, ◌≡◌, true, some, [], ◌∷◌, ltb_ℤ, arith}
use solstarter.Solana.{
  World, AccountInfo, Clock, Runtime, Pubkey, ok, >>=-eq-ok, fail_if-eq-ok, is_owner, same_key,
  read_unwrap, IsSystem, IsLawful, write-ok,
}
use solstarter.Staking.Program.{create_account_with_seed_signed}
use solstarter.Ido.Error.{input_time_must_be_in_future, wrong_kyc_account, into}
use solstarter.Ido.Instruction.{CreateMarketUserKyc}
use solstarter.Ido.State.{Market, check_uninitialized}
use solstarter.Ido.Processor.Shared.{Codecs, kyc_seed, validate_market_owner}
use solstarter.Ido.Processor.Kyc.{CreateKycAccounts, create_market_user_kyc}
use solstarter.Ido.Processor.Participate.{ParticipateAccounts, check_kyc}

validate_market_owner-signed :
    (cs : Codecs) (market owner : AccountInfo) (w : World) {m : Market}
    → validate_market_owner cs market owner w ≡ ok m
    → (owner.is_signer ≡ true)
      × (owner.key ≡ m.owner)
      × (cs.market.try_from_slice (w market.key).bytes ≡ some m)
unfolding validate_market_owner
validate_market_owner-signed cs market owner w h = ground arith

module _ (rt : Runtime) (system : IsSystem rt) (cs : Codecs) (lawful : IsLawful cs.market_user_kyc)
    (program_id : Pubkey) where
  -- With a system program that makes a new account its owner's and a codec that reads back what it
  -- writes, after a successful `create_market_user_kyc`, which the owner of the market has signed and
  -- whose expiration is not past, a participation of the user in a sale of the market with the record
  -- passes the check of KYC at any time until the expiration, in any store where the record's account
  -- still has the data and the owner that it was left with.
  pub create_market_user_kyc-check_kyc :
      (a : CreateKycAccounts) (input : CreateMarketUserKyc) (w w' : World) (b : ParticipateAccounts)
      (clock : Clock) (v : World)
      → create_market_user_kyc rt cs program_id a input w ≡ ok w'
      → b.market.key ≡ a.market.key
      → b.user_wallet.key ≡ a.user_wallet.key
      → b.market_user_kyc.key ≡ a.market_user_kyc.key
      → clock.unix_timestamp ≤ℤ input.expiration
      → (v a.market_user_kyc.key).bytes ≡ (w' a.market_user_kyc.key).bytes
      → (v a.market_user_kyc.key).owner ≡ (w' a.market_user_kyc.key).owner
      → (now : Clock) × (m : Market) × (rt.clock_from a.clock (w a.clock.key) ≡ ok now)
        × (now.unix_timestamp ≤ℤ input.expiration)
        × (a.market_owner.is_signer ≡ true)
        × (a.market_owner.key ≡ m.owner)
        × (cs.market.try_from_slice (w a.market.key).bytes ≡ some m)
        × (check_kyc rt cs program_id true b clock v ≡ ok tt)
  unfolding create_market_user_kyc check_kyc
  create_market_user_kyc-check_kyc a input w w' b clock v h same_market same_user same_kyc unexpired
        same_data same_owner =
      let (_, _, h₁) = >>=-eq-ok (is_owner program_id (a.market ∷ []) w) _ h in
      let (rent, _, h₂) = >>=-eq-ok (rt.rent_from a.rent (w a.rent.key)) _ h₁ in
      let (m, valid, h₃) = >>=-eq-ok (validate_market_owner cs a.market a.market_owner w) _ h₂ in
      let (now, time, h₄) = >>=-eq-ok (rt.clock_from a.clock (w a.clock.key)) _ h₃ in
      let (future, h₅) =
        fail_if-eq-ok (ltb_ℤ input.expiration now.unix_timestamp)
          (into input_time_must_be_in_future) _ h₄ in
      let (_, _, h₆) = >>=-eq-ok (same_key _ a.market_user_authority _) _ h₅ in
      let (key, _, h₇) =
        >>=-eq-ok (rt.create_with_seed a.market_user_authority.key kyc_seed program_id) _ h₆ in
      let (_, _, h₈) = >>=-eq-ok (same_key key a.market_user_kyc (into wrong_kyc_account)) _ h₇ in
      let (w₁, created, h₉) =
        >>=-eq-ok
          (create_account_with_seed_signed rt a.market_owner a.market_user_kyc
            a.market_user_authority kyc_seed _ _ program_id _ w)
          _ h₈ in
      let (old, empty, g₁) = >>=-eq-ok (read_unwrap cs.market_user_kyc a.market_user_kyc w₁) _ h₉ in
      let (_, _, put) = >>=-eq-ok (check_uninitialized old.version) _ g₁ in
      let owned = system.creates _ _ _ _ _ _ _ _ _ w w₁ created in
      let (put_data, encoded, written, owner) =
        write-ok cs.market_user_kyc _ a.market_user_kyc w₁ put in
      let (signed, key_eq, market) =
        validate_market_owner-signed cs a.market a.market_owner w valid in
      let stored =
        lawful.reads_back old _ (w₁ a.market_user_kyc.key).bytes put_data ground (arith, empty)
          encoded in
      (
        now,
        m,
        time,
        ground (arith, future),
        signed,
        key_eq,
        market,
        rw same_kyc ground (arith, stored, written, owner, owned, same_data, same_owner),
      )
