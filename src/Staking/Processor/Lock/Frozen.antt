-- ===== src/Staking/Processor/Lock/Frozen.antt =====
-- `lock` and `unlock` of staking/program/src/processor.rs while the pool is active.
use solstarter.Common.{◌≡◌, ◌≢◌, ◌<ℤ◌, ltb_ℤ, some, [], ◌∷◌, arith}
use solstarter.Solana.{
  World, Runtime, Pubkey, Clock, ok, >>=-eq-ok, fail_if-eq-ok, is_owner, is_signer, read, read-ok,
}
use solstarter.Staking.Error.{
  cannot_lock_when_pool_is_active, cannot_unlock_when_pool_is_active, into,
}
use solstarter.Staking.State.{StakePool}
use solstarter.Staking.Processor.Shared.{Codecs, LockInput, UnlockInput}
use solstarter.Staking.Processor.Lock.{LockAccounts, lock, unlock}

module _ (rt : Runtime) (cs : Codecs) (program_id : Pubkey) (a : LockAccounts) (w : World)
    (p : StakePool) (clock : Clock)
    (stored : cs.stake_pool.try_from_slice (w a.pool.key).bytes ≡ some p)
    (now : rt.clock_from a.clock (w a.clock.key) ≡ ok clock)
    (active : clock.unix_timestamp <ℤ p.pool_active_until) where
  lock_frozen : (input : LockInput) (w' : World) → lock rt cs program_id a input w ≢ ok w'
  unfolding lock
  lock_frozen input w' h =
      let (_, _, h₁) = >>=-eq-ok (is_owner program_id (a.pool ∷ a.pool_lock ∷ []) w) _ h in
      let (_, _, h₂) =
        >>=-eq-ok (rt.unpack_account_from_slice (w a.pool_lock_token_account_xsos.key).bytes) _
          h₁ in
      let (p₀, read_p, h₃) = >>=-eq-ok (read cs.stake_pool a.pool w) _ h₂ in
      let (c₀, read_c, h₄) = >>=-eq-ok (rt.clock_from a.clock (w a.clock.key)) _ h₃ in
      let (late, _) =
        fail_if-eq-ok (ltb_ℤ c₀.unix_timestamp p₀.pool_active_until)
          (into cannot_lock_when_pool_is_active) _ h₄ in
      let same_p : p ≡ p₀ = ground (arith, stored, read-ok cs.stake_pool a.pool w read_p) in
      let same_c : clock ≡ c₀ = ground (arith, now, read_c) in
      ground (arith, active, late, same_p, same_c)

  unlock_frozen : (input : UnlockInput) (w' : World) → unlock rt cs program_id a input w ≢ ok w'
  unfolding unlock
  unlock_frozen input w' h =
      let (_, _, h₁) = >>=-eq-ok (is_owner program_id (a.pool ∷ a.pool_lock ∷ []) w) _ h in
      let (_, _, h₂) = >>=-eq-ok (is_signer a.user_wallet) _ h₁ in
      let (_, _, h₃) =
        >>=-eq-ok (rt.unpack_account_from_slice (w a.pool_lock_token_account_xsos.key).bytes) _
          h₂ in
      let (c₀, read_c, h₄) = >>=-eq-ok (rt.clock_from a.clock (w a.clock.key)) _ h₃ in
      let (p₀, read_p, h₅) = >>=-eq-ok (read cs.stake_pool a.pool w) _ h₄ in
      let (late, _) =
        fail_if-eq-ok (ltb_ℤ c₀.unix_timestamp p₀.pool_active_until)
          (into cannot_unlock_when_pool_is_active) _ h₅ in
      let same_p : p ≡ p₀ = ground (arith, stored, read-ok cs.stake_pool a.pool w read_p) in
      let same_c : clock ≡ c₀ = ground (arith, now, read_c) in
      ground (arith, active, late, same_p, same_c)

  -- While the clock is before the time until which the pool is active, neither `lock` nor `unlock` of
  -- any amount succeeds, whatever the other accounts and whoever signs.
  pub locks_frozen :
      (locked : LockInput) (unlocked : UnlockInput) (w' : World)
      → (lock rt cs program_id a locked w ≢ ok w') × (unlock rt cs program_id a unlocked w ≢ ok w')
  locks_frozen locked unlocked w' = (lock_frozen locked w', unlock_frozen unlocked w')
