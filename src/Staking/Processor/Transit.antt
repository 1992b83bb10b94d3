-- ===== src/Staking/Processor/Transit.antt =====
-- What a successful `unstake_finish` of staking/program/src/processor.rs does to a transit.
pub mod Stake
pub mod Opened
pub mod Outgoing
use solstarter.Common.{
  ℕ, ◌+◌, ◌<◌, ◌≡◌, refl, ◌≢◌, sym, ap, true, ◌∙◌, some, List, [], ◌∷◌, ◌==◌, arith,
}
use solstarter.Solana.{
  World, AccountInfo, Clock, Runtime, Pubkey, Bytes, TokenAccount, ok, Result, >>=-eq-ok,
  require-eq-ok, invalid_account_data, missing_required_signature, ok_or, write, is_owner,
  is_signer, read, IsIsolated, IsToken, IsLawful, IsKept, IsKept-trans, write-ok, write_keeps,
  call_keeps,
}
use solstarter.Staking.Error.{
  pool_transit_must_be_of_provided_pool, pool_transit_wrong_direction, wrong_account_specified,
  into,
}
use solstarter.Staking.Math
use solstarter.Staking.Math.{error_add}
use solstarter.Staking.Math.Finish.{vested, finish_bounds}
use solstarter.Staking.Invoke.{token_transfer_program_authority}
use solstarter.Staking.State.{PoolTransit}
use solstarter.Staking.Processor.Shared
use solstarter.Staking.Processor.Shared.{Codecs}
use solstarter.Staking.Processor.Unstake.{UnstakeFinishAccounts, is_outgoing, unstake_finish}

-- What a claim at the time of `clock` does to a transit whose token account held `held`, and then holds
-- `kept`: what was claimed is then exactly the share of the whole that the time has freed, it went out
-- of the account, and nothing else of the transit changes.
pub record Claims (transit transit' : PoolTransit) (held kept : ℕ) (clock : Clock) : Type 0 where
  pub grows : transit.amount_claimed < transit'.amount_claimed
  pub conserves : transit'.amount_claimed + kept ≡ transit.amount_claimed + held
  pub is_share :
      transit'.amount_claimed
      ≡ vested transit.transit_from transit.transit_until clock.unix_timestamp
          (transit.amount_claimed + held)
  pub others : transit' ≡ record transit { amount_claimed = transit'.amount_claimed }

error_add-ok : (a b : ℕ) {c : ℕ} → error_add 64 a b ≡ ok c → c ≡ a + b
unfolding error_add
error_add-ok a b h = ground arith

finish-ok :
    (cs : Codecs) (transit : PoolTransit) (clock : Clock) (held : ℕ) (account : AccountInfo)
    (w : World) {amount : ℕ} {w' : World}
    → Shared.finish cs transit clock held account w ≡ ok (amount, w')
    → (transit' : PoolTransit) × (write cs.pool_transit transit' account w ≡ ok w')
      × ((kept : ℕ) → kept + amount ≡ held → Claims transit transit' held kept clock)
unfolding Shared.finish
finish-ok cs transit clock held account w {amount} {w'} h =
    let (claim, found, h₁) = >>=-eq-ok (ok_or (Math.finish _ _ _ _ _) _) _ h in
    let (claimed, sum, h₂) = >>=-eq-ok (error_add 64 transit.amount_claimed claim) _ h₁ in
    let (w₁, put, h₃) = >>=-eq-ok (write cs.pool_transit _ account w) _ h₂ in
    let total = error_add-ok transit.amount_claimed claim sum in
    let same : claim ≡ amount = ground (arith, h₃) in
    let some_found : Math.finish transit.transit_from clock.unix_timestamp transit.transit_until
          transit.amount_claimed held
        ≡ some amount =
      ground (arith, found, h₃) in
    let (positive, _, share) =
      finish_bounds transit.transit_from clock.unix_timestamp transit.transit_until
        transit.amount_claimed held some_found in
    (
      record transit { amount_claimed = claimed },
      ground (arith, put, h₃),
      λ kept rest. record {
        grows = omega arith;
        conserves = omega arith;
        is_share = ground (arith, share, total);
        others = refl;
      },
    )

module _ (rt : Runtime) (cs : Codecs) (program_id : Pubkey) where
  -- The accounts of a transit, the record under `record_key` and the tokens under `token_key`, after a
  -- claim at the time of `clock`.
  pub record IsClaimed (transit : PoolTransit) (held : ℕ) (clock : Clock)
      (record_key token_key : Pubkey) (w : World) : Type 0 where
    pub transit' : PoolTransit
    pub tokens : TokenAccount
    pub owned : (w record_key).owner ≡ program_id
    pub is_stored : cs.pool_transit.try_from_slice (w record_key).bytes ≡ some transit'
    pub unpacked : rt.unpack_account (w token_key).bytes ≡ ok tokens
    pub claims : Claims transit transit' held tokens.amount clock

module _ (system_program token_program staking_program : Pubkey) (rt : Runtime)
    (isolated : IsIsolated system_program token_program staking_program rt) (token : IsToken rt)
    (cs : Codecs) (lawful : IsLawful cs.pool_transit) (program_id : Pubkey)
    (not_token : program_id ≢ token_program) where
  pub paid-IsClaimed :
      (transit : PoolTransit) (clock : Clock) (t : TokenAccount)
      (account source destination authority : AccountInfo) (pool : Pubkey) (bump amount : ℕ)
      (w w₁ w₂ : World)
      → account.key ≢ source.key
      → source.key ≢ destination.key
      → (w account.key).owner ≡ program_id
      → cs.pool_transit.try_from_slice (w account.key).bytes ≡ some transit
      → rt.unpack_account (w source.key).bytes ≡ ok t
      → Shared.finish cs transit clock t.amount account w ≡ ok (amount, w₁)
      → token_transfer_program_authority rt pool source destination authority bump amount w₁ ≡ ok w₂
      → IsClaimed rt cs program_id transit t.amount clock account.key source.key w₂
  paid-IsClaimed transit clock t account source destination authority pool bump amount w w₁ w₂ apart
        ends owned stored unpacked finished sent =
      let (transit', put, claims) = finish-ok cs transit clock t.amount account w finished in
      let (b, encoded, written, owner) = write-ok cs.pool_transit transit' account w put in
      let same = write_keeps cs.pool_transit transit' account w source.key put apart in
      let kept =
        call_keeps system_program token_program staking_program rt isolated program_id _ _ _ w₁ w₂
          account.key (λ e. not_token (sym e)) (owner ∙ owned) sent in
      let (t', after, sum) = token.debits _ _ _ _ _ _ _ w₁ w₂ t sent ends (rw same unpacked) in
      record {
        transit' = transit';
        tokens = t';
        owned = kept.same_owner ∙ owner ∙ owned;
        is_stored =
            rw (kept.same_bytes ∙ written)
              (lawful.reads_back transit transit' (w account.key).bytes b stored encoded);
        unpacked = after;
        claims = claims t'.amount sum;
      }

  -- On a runtime where only its owner changes an account, with a token program that moves what it is told
  -- to, a program other than that and a codec that reads back what it writes: a successful
  -- `unstake_finish` on three different accounts for the transit's record, its tokens and the user's
  -- tokens comes with the signature of the transit's user, and claims from the transit.
  pub unstake_finish-IsClaimed :
      (a : UnstakeFinishAccounts) (w w' : World) (transit : PoolTransit) (t : TokenAccount)
      → a.pool_transit.key ≢ a.pool_transit_token_account_sos.key
      → a.pool_transit_token_account_sos.key ≢ a.user_token_account_sos.key
      → cs.pool_transit.try_from_slice (w a.pool_transit.key).bytes ≡ some transit
      → rt.unpack_account (w a.pool_transit_token_account_sos.key).bytes ≡ ok t
      → unstake_finish rt cs program_id a w ≡ ok w'
      → (clock : Clock) × (rt.clock_from a.clock (w a.clock.key) ≡ ok clock)
        × (a.user_wallet.is_signer ≡ true)
        × (transit.user_wallet ≡ a.user_wallet.key)
        × (transit.pool ≡ a.pool.key)
        × IsClaimed rt cs program_id transit t.amount clock a.pool_transit.key
            a.pool_transit_token_account_sos.key w'
  unfolding unstake_finish
  unstake_finish-IsClaimed a w w' transit t apart ends stored unpacked h =
      let (_, owners, h₁) = >>=-eq-ok (is_owner program_id (a.pool ∷ a.pool_transit ∷ []) w) _ h in
      let (_, signed, h₂) = >>=-eq-ok (is_signer a.user_wallet) _ h₁ in
      let (clock, now, h₃) = >>=-eq-ok (rt.clock_from a.clock (w a.clock.key)) _ h₂ in
      let (found, read_eq, h₄) = >>=-eq-ok (read cs.pool_transit a.pool_transit w) _ h₃ in
      let (of_pool, h₅) =
        require-eq-ok (found.pool == a.pool.key) (into pool_transit_must_be_of_provided_pool) _
          h₄ in
      let (_, h₆) =
        require-eq-ok (is_outgoing found.direction) (into pool_transit_wrong_direction) _ h₅ in
      let (_, h₇) =
        require-eq-ok (found.token_account_sos == a.pool_transit_token_account_sos.key)
          invalid_account_data _ h₆ in
      let (of_user, h₈) =
        require-eq-ok (found.user_wallet == a.user_wallet.key) missing_required_signature _ h₇ in
      let (held, unpack_eq, h₉) =
        >>=-eq-ok (rt.unpack_account_from_slice (w a.pool_transit_token_account_sos.key).bytes) _
          h₈ in
      let ((amount, w₁), finished, sent) =
        >>=-eq-ok (Shared.finish cs found clock held.amount a.pool_transit w) _ h₉ in
      let same : transit ≡ found = ground (arith, stored, read_eq) in
      let same_t : t ≡ held = ground (arith, token.unpacks _ t unpacked, unpack_eq) in
      let done : Shared.finish cs transit clock t.amount a.pool_transit w ≡ ok (amount, w₁) =
        rw (same, same_t) finished in
      (
        clock,
        now,
        ground (arith, signed),
        ground (arith, same, of_user),
        ground (arith, same, of_pool),
        paid-IsClaimed transit clock t a.pool_transit a.pool_transit_token_account_sos
            a.user_token_account_sos a.pool_authority a.pool.key _ amount w w₁ w' apart ends
            (ground (arith, owners)) stored unpacked done sent,
      )
