-- ===== src/Staking/Processor/Transit/Stake.antt =====
-- What a successful `stake_finish` of staking/program/src/processor.rs does to a transit.
use solstarter.Common.{◌≡◌, ◌≢◌, sym, ◌∙◌, true, some, [], ◌∷◌, ◌==◌, arith}
use solstarter.Solana.{
  World, Clock, Runtime, Pubkey, TokenAccount, ok, >>=-eq-ok, require-eq-ok, invalid_account_data,
  missing_required_signature, is_owner, is_signer, same_key, read, IsIsolated, IsToken, IsLawful,
  call_keeps,
}
use solstarter.Staking.Error.{pool_transit_wrong_direction, wrong_account_specified, into}
use solstarter.Staking.Program.{find_key_program_address}
use solstarter.Staking.Invoke.{token_transfer_program_authority}
use solstarter.Staking.State.{PoolTransit, check_initialized}
use solstarter.Staking.Processor.Shared
use solstarter.Staking.Processor.Shared.{Codecs}
use solstarter.Staking.Processor.Stake.{StakeFinishAccounts, is_incoming, stake_finish}
use solstarter.Staking.Processor.Transit.{IsClaimed, paid-IsClaimed}

module _ (system_program token_program staking_program : Pubkey) (rt : Runtime)
    (isolated : IsIsolated system_program token_program staking_program rt) (token : IsToken rt)
    (cs : Codecs) (lawful : IsLawful cs.pool_transit) (program_id : Pubkey)
    (not_token : program_id ≢ token_program) where
  -- On a runtime where only its owner changes an account, with a token program that moves what it is told
  -- to, a program other than that and a codec that reads back what it writes: a successful `stake_finish`
  -- whose transit's tokens are in another account than its record, the pool's tokens, the mint and the
  -- user's tokens comes with the signature of the transit's user, and claims from the transit.
  pub stake_finish-IsClaimed :
      (a : StakeFinishAccounts) (w w' : World) (transit : PoolTransit) (t : TokenAccount)
      → a.pool_transit.key ≢ a.pool_transit_token_account_sos.key
      → a.pool_transit_token_account_sos.key ≢ a.pool_token_account_sos.key
      → a.pool_transit_token_account_sos.key ≢ a.pool_mint_xsos.key
      → a.pool_transit_token_account_sos.key ≢ a.user_token_account_xsos.key
      → cs.pool_transit.try_from_slice (w a.pool_transit.key).bytes ≡ some transit
      → rt.unpack_account (w a.pool_transit_token_account_sos.key).bytes ≡ ok t
      → stake_finish rt cs program_id a w ≡ ok w'
      → (clock : Clock) × (rt.clock_from a.clock (w a.clock.key) ≡ ok clock)
        × (a.user_wallet.is_signer ≡ true)
        × (transit.user_wallet ≡ a.user_wallet.key)
        × IsClaimed rt cs program_id transit t.amount clock a.pool_transit.key
            a.pool_transit_token_account_sos.key w'
  unfolding stake_finish
  stake_finish-IsClaimed a w w' transit t apart ends not_mint not_user stored unpacked h =
      let (_, owners, h₁) = >>=-eq-ok (is_owner program_id (a.pool ∷ a.pool_transit ∷ []) w) _ h in
      let (_, signed, h₂) = >>=-eq-ok (is_signer a.user_wallet) _ h₁ in
      let (found, read_eq, h₃) = >>=-eq-ok (read cs.pool_transit a.pool_transit w) _ h₂ in
      let (_, _, h₄) = >>=-eq-ok (check_initialized found.version) _ h₃ in
      let (_, h₅) =
        require-eq-ok (is_incoming found.direction) (into pool_transit_wrong_direction) _ h₄ in
      let (p, _, h₆) = >>=-eq-ok (read cs.stake_pool a.pool w) _ h₅ in
      let (_, _, h₇) =
        >>=-eq-ok
          (same_key p.token_account_sos a.pool_token_account_sos (into wrong_account_specified)) _
          h₆ in
      let (_, h₈) =
        require-eq-ok (a.pool_mint_xsos.key == p.pool_mint_xsos) (into wrong_account_specified) _
          h₇ in
      let (_, h₉) =
        require-eq-ok (found.token_account_sos == a.pool_transit_token_account_sos.key)
          invalid_account_data _ h₈ in
      let (of_user, g₁) =
        require-eq-ok (found.user_wallet == a.user_wallet.key) missing_required_signature _ h₉ in
      let (clock, now, g₂) = >>=-eq-ok (rt.clock_from a.clock (w a.clock.key)) _ g₁ in
      let (held, unpack_eq, g₃) =
        >>=-eq-ok (rt.unpack_account_from_slice (w a.pool_transit_token_account_sos.key).bytes) _
          g₂ in
      let ((amount, w₁), finished, g₄) =
        >>=-eq-ok (Shared.finish cs found clock held.amount a.pool_transit w) _ g₃ in
      let (w₂, sent, minted) =
        >>=-eq-ok
          (token_transfer_program_authority rt a.pool.key a.pool_transit_token_account_sos
            a.pool_token_account_sos a.pool_authority
            (find_key_program_address rt a.pool.key program_id).1 amount w₁)
          _ g₄ in
      let same : transit ≡ found = ground (arith, stored, read_eq) in
      let same_t : t ≡ held = ground (arith, token.unpacks _ t unpacked, unpack_eq) in
      let done : Shared.finish cs transit clock t.amount a.pool_transit w ≡ ok (amount, w₁) =
        rw (same, same_t) finished in
      let paid =
        paid-IsClaimed system_program token_program staking_program rt isolated token cs lawful
          program_id not_token transit clock t a.pool_transit a.pool_transit_token_account_sos
          a.pool_token_account_sos a.pool_authority a.pool.key _ amount w w₁ w₂ apart ends
          (ground (arith, owners)) stored unpacked done sent in
      let kept =
        call_keeps system_program token_program staking_program rt isolated program_id _ _ _ w₂ w'
          a.pool_transit.key (λ e. not_token (sym e)) paid.owned minted in
      let same_tokens =
        token.mints _ _ _ _ _ _ _ w₂ w' a.pool_transit_token_account_sos.key minted not_mint
          not_user in
      (
        clock,
        now,
        ground (arith, signed),
        ground (arith, same, of_user),
        record {
          transit' = paid.transit';
          tokens = paid.tokens;
          owned = kept.same_owner ∙ paid.owned;
          is_stored = rw kept.same_bytes paid.is_stored;
          unpacked = rw same_tokens paid.unpacked;
          claims = paid.claims;
        },
      )
