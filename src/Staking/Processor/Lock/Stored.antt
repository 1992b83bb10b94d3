-- ===== src/Staking/Processor/Lock/Stored.antt =====
-- What a successful `lock` of staking/program/src/processor.rs leaves in the store.
use solstarter.Common.{ℕ, ◌+◌, ◌≡◌, ◌≢◌, sym, ◌∙◌, some, List, [], ◌∷◌, set, ltb_ℤ, arith}
use solstarter.Solana.{
  World, Runtime, Pubkey, TokenAccount, ok, index, >>=-eq-ok, fail_if-eq-ok, is_owner, read,
  IsIsolated, IsToken, IsLawful, write_unwrap-ok, write_unwrap_keeps, call_keeps,
}
use solstarter.Staking.Error.{cannot_lock_when_pool_is_active, into}
use solstarter.Staking.Invoke.{token_transfer_with_user_authority}
use solstarter.Staking.State.{StakePool}
use solstarter.Staking.Processor.Shared.{Codecs, LockInput}
use solstarter.Staking.Processor.Lock.{LockAccounts, check_lock, lock_tiers, lock}
use solstarter.Staking.Processor.Lock.Counted.{IsCounted, lock_tiers-IsCounted}

module _ (system_program token_program staking_program : Pubkey) (rt : Runtime)
    (isolated : IsIsolated system_program token_program staking_program rt) (token : IsToken rt)
    (cs : Codecs) (lawful : IsLawful cs.stake_pool) (program_id : Pubkey)
    (not_token : program_id ≢ token_program) (a : LockAccounts) where
  -- On a runtime where only its owner changes an account, with a token program that moves what it is told
  -- to, a program other than that and a codec that reads back what it writes: where the pool's counts are
  -- those of the locks of all users, one of which is the lock's token account, and a successful `lock`
  -- draws on another token account than that and has another account for the pool, the token account
  -- holds the amount given more, and the pool that the program's account then holds has the counts of
  -- all locks with the new amount.
  pub lock-IsCounted :
      (input : LockInput) (w w' : World) (p : StakePool) (t : TokenAccount) (amounts : List ℕ)
      (i : ℕ)
      → a.user_token_account_xsos.key ≢ a.pool_lock_token_account_xsos.key
      → a.pool.key ≢ a.pool_lock_token_account_xsos.key
      → cs.stake_pool.try_from_slice (w a.pool.key).bytes ≡ some p
      → rt.unpack_account (w a.pool_lock_token_account_xsos.key).bytes ≡ ok t
      → IsCounted p amounts
      → index amounts i ≡ ok t.amount
      → lock rt cs program_id a input w ≡ ok w'
      → (p' : StakePool) × (t' : TokenAccount) × ((w' a.pool.key).owner ≡ program_id)
        × (cs.stake_pool.try_from_slice (w' a.pool.key).bytes ≡ some p')
        × (rt.unpack_account (w' a.pool_lock_token_account_xsos.key).bytes ≡ ok t')
        × (t'.amount ≡ t.amount + input.amount)
        × IsCounted p' (set amounts i t'.amount)
  unfolding lock
  lock-IsCounted input w w' p t amounts i sources apart stored unpacked counted found h =
      let (_, owners, h₁) = >>=-eq-ok (is_owner program_id (a.pool ∷ a.pool_lock ∷ []) w) _ h in
      let (t₀, e₂, h₂) =
        >>=-eq-ok (rt.unpack_account_from_slice (w a.pool_lock_token_account_xsos.key).bytes) _
          h₁ in
      let (p₀, e₃, h₃) = >>=-eq-ok (read cs.stake_pool a.pool w) _ h₂ in
      let (clock, _, h₄) = >>=-eq-ok (rt.clock_from a.clock (w a.clock.key)) _ h₃ in
      let (_, h₅) =
        fail_if-eq-ok (ltb_ℤ clock.unix_timestamp p₀.pool_active_until)
          (into cannot_lock_when_pool_is_active) _ h₄ in
      let (_, _, h₆) = >>=-eq-ok (check_lock rt cs program_id a w) _ h₅ in
      let (p', moved, h₇) = >>=-eq-ok (lock_tiers t₀.amount input.amount p₀) _ h₆ in
      let (w₁, sent, put) =
        >>=-eq-ok
          (token_transfer_with_user_authority rt a.user_token_account_xsos
            a.pool_lock_token_account_xsos a.user_wallet input.amount w)
          _ h₇ in
      let same_t : t ≡ t₀ = ground (arith, token.unpacks _ t unpacked, e₂) in
      let same_p : p ≡ p₀ = ground (arith, stored, e₃) in
      let owned : (w a.pool.key).owner ≡ program_id = ground (arith, owners) in
      let kept =
        call_keeps system_program token_program staking_program rt isolated program_id _ _ _ w w₁
          a.pool.key (λ e. not_token (sym e)) owned sent in
      let (t', after, sum) = token.credits _ _ _ _ _ _ _ w w₁ t sent sources unpacked in
      let (b, encoded, written, owner) = write_unwrap-ok cs.stake_pool p' a.pool w₁ put in
      let rest =
        write_unwrap_keeps cs.stake_pool p' a.pool w₁ a.pool_lock_token_account_xsos.key put
          apart in
      let done : lock_tiers t.amount input.amount p ≡ ok p' = rw (same_t, same_p) moved in
      (
        p',
        t',
        owner ∙ kept.same_owner ∙ owned,
        rw written
            (lawful.reads_back p p' (w₁ a.pool.key).bytes b (rw kept.same_bytes stored) encoded),
        rw rest after,
        sum,
        rw sum (lock_tiers-IsCounted p amounts i t.amount input.amount counted found done),
      )
