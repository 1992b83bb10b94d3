-- ===== src/Staking/Processor/Lock/Released.antt =====
-- What a successful `unlock` of staking/program/src/processor.rs has checked and leaves in the store.
use solstarter.Common.{
  ℕ, ◌+◌, ◌-◌, ◌≡◌, ◌≢◌, Option, none, ap, sym, ◌∙◌, ◌==◌, true, some, [], ◌∷◌, ltb_ℤ, arith,
}
use solstarter.Solana.{
  World, Runtime, Pubkey, TokenAccount, ok, >>=-eq-ok, require-eq-ok, fail_if-eq-ok, is_owner,
  is_signer, read, key_seed, bump_seed, IsIsolated, IsToken, IsLawful, write-ok, write_keeps,
  call_keeps, read-ok, is_signer-ok, same-eq, first_owner,
}
use solstarter.Staking.Error.{
  cannot_unlock_when_pool_is_active, wrong_owner, lock_must_be_related_to_pool,
  derived_pool_lock_account_key_is_not_equal_to_calculated, into,
}
use solstarter.Staking.Math.{error_sub}
use solstarter.Staking.Program.{lock_seed, find_2key_program_address}
use solstarter.Staking.Invoke.{token_transfer_signature}
use solstarter.Staking.State.{StakePool, PoolLock, get_tier}
use solstarter.Staking.Processor.Shared.{Codecs, UnlockInput}
use solstarter.Staking.Processor.Lock.{
  LockAccounts, leave_tier, raise_balance, check_lock, unlock_tiers, unlock,
}
use solstarter.Staking.Processor.Lock.Tiers.{users_at, balance_at, hits, unlock_tiers-users}

-- The lock record under the key derived for it names the user, the pool and the token account given.
pub record IsLock (rt : Runtime) (cs : Codecs) (program_id : Pubkey) (a : LockAccounts) (w : World)
    (l : PoolLock) : Type 0 where
  pub stored : cs.pool_lock.try_from_slice (w a.pool_lock.key).bytes ≡ some l
  pub of_user : l.user_wallet ≡ a.user_wallet.key
  pub of_pool : l.pool ≡ a.pool.key
  pub derived :
      rt.create_with_seed a.pool_user_authority.key lock_seed program_id ≡ ok a.pool_lock.key
  pub of_token : a.pool_lock_token_account_xsos.key ≡ l.token_account_xsos

pub check_lock-IsLock :
    (rt : Runtime) (cs : Codecs) (program_id : Pubkey) (a : LockAccounts) (w : World)
    → check_lock rt cs program_id a w ≡ ok tt
    → (l : PoolLock) × IsLock rt cs program_id a w l
unfolding check_lock
check_lock-IsLock rt cs program_id a w h =
    let (l, read_l, h₁) = >>=-eq-ok (read cs.pool_lock a.pool_lock w) _ h in
    let (user, h₂) = require-eq-ok (l.user_wallet == a.user_wallet.key) (into wrong_owner) _ h₁ in
    let (pool, h₃) =
      require-eq-ok (l.pool == a.pool.key) (into lock_must_be_related_to_pool) _ h₂ in
    let (k, derived, h₄) =
      >>=-eq-ok (rt.create_with_seed a.pool_user_authority.key lock_seed program_id) _ h₃ in
    let (key, h₅) =
      require-eq-ok (k == a.pool_lock.key)
        (into derived_pool_lock_account_key_is_not_equal_to_calculated) _ h₄ in
    let same_k : k ≡ a.pool_lock.key = same-eq k a.pool_lock.key key in
    (
      l,
      record {
        stored = read-ok cs.pool_lock a.pool_lock w read_l;
        of_user = same-eq _ _ user;
        of_pool = same-eq _ _ pool;
        derived = rw same_k at derived;
        of_token = ground (arith, h₅);
      },
    )

leave_tier-eq :
    (tier : Option ℕ) (p : StakePool) {p' : StakePool}
    → leave_tier tier p ≡ ok p'
    → p' ≡ record p { tier_users = p'.tier_users }
unfolding leave_tier
leave_tier-eq none p h = ground arith
leave_tier-eq (some tier) p h = ground arith

raise_balance-eq :
    (tier : Option ℕ) (p : StakePool) {p' : StakePool}
    → raise_balance tier p ≡ ok p'
    → p' ≡ record p { tier_balance = p'.tier_balance }
unfolding raise_balance
raise_balance-eq none p h = ground arith
raise_balance-eq (some tier) p h = ground arith

unlock_tiers-eq :
    (amount removed : ℕ) (p : StakePool) {p' : StakePool}
    → unlock_tiers amount removed p ≡ ok p'
    → p' ≡ record p { tier_users = p'.tier_users; tier_balance = p'.tier_balance }
unfolding unlock_tiers
unlock_tiers-eq amount removed p {p'} h =
    let (q, e, h₁) = >>=-eq-ok (leave_tier (get_tier p.tier_balance amount) p) _ h in
    let (v, _, h₂) = >>=-eq-ok (error_sub amount removed) _ h₁ in
    let left = leave_tier-eq (get_tier p.tier_balance amount) p e in
    let raised = raise_balance-eq (get_tier q.tier_balance v) q h₂ in
    let users : p'.tier_users ≡ q.tier_users = ap {A = StakePool} (λ x. x.tier_users) raised in
    raised
    ∙ ap {A = StakePool} (λ x. record x { tier_balance = p'.tier_balance }) left
    ∙ ap (λ x. record p { tier_users = x; tier_balance = p'.tier_balance }) (sym users)

module _ (system_program token_program staking_program : Pubkey) (rt : Runtime)
    (isolated : IsIsolated system_program token_program staking_program rt) (token : IsToken rt)
    (cs : Codecs) (lawful : IsLawful cs.stake_pool) (program_id : Pubkey)
    (not_token : program_id ≢ token_program) (a : LockAccounts) where
  -- On a runtime where only its owner changes an account, with a token program that moves what it is told
  -- to, a program other than that and a codec that reads back what it writes: a successful `unlock`, to
  -- another token account than that of the lock and with another account for the pool, is signed by the
  -- user of the lock record under the derived key, and takes the amount given out of the lock's token
  -- account. The pool that the program's account then holds counts one user fewer in the tier `k`, if
  -- that was the tier of the tokens, and has a balance of the tier `k` that is greater by one, if that is
  -- the tier of what is left; but for counts and balances the pool is as it was.
  pub unlock_releases :
      (input : UnlockInput) (w w' : World) (p : StakePool) (t : TokenAccount) (k : ℕ)
      → a.pool_lock_token_account_xsos.key ≢ a.user_token_account_xsos.key
      → a.pool.key ≢ a.pool_lock_token_account_xsos.key
      → cs.stake_pool.try_from_slice (w a.pool.key).bytes ≡ some p
      → rt.unpack_account (w a.pool_lock_token_account_xsos.key).bytes ≡ ok t
      → unlock rt cs program_id a input w ≡ ok w'
      → (l : PoolLock) × (p' : StakePool) × (t' : TokenAccount) × IsLock rt cs program_id a w l
        × (a.user_wallet.is_signer ≡ true)
        × ((w' a.pool.key).owner ≡ program_id)
        × (cs.stake_pool.try_from_slice (w' a.pool.key).bytes ≡ some p')
        × (rt.unpack_account (w' a.pool_lock_token_account_xsos.key).bytes ≡ ok t')
        × (t'.amount + input.amount ≡ t.amount)
        × (p' ≡ record p { tier_users = p'.tier_users; tier_balance = p'.tier_balance })
        × (users_at p' k + hits (get_tier p.tier_balance t.amount) k ≡ users_at p k)
        × (balance_at p' k ≡ balance_at p k + hits (get_tier p.tier_balance t'.amount) k)
  unfolding unlock
  unlock_releases input w w' p t k apart_token apart stored unpacked h =
      let (_, owners, h₁) = >>=-eq-ok (is_owner program_id (a.pool ∷ a.pool_lock ∷ []) w) _ h in
      let (_, signed, h₂) = >>=-eq-ok (is_signer a.user_wallet) _ h₁ in
      let (t₀, e₂, h₃) =
        >>=-eq-ok (rt.unpack_account_from_slice (w a.pool_lock_token_account_xsos.key).bytes) _
          h₂ in
      let (clock, _, h₄) = >>=-eq-ok (rt.clock_from a.clock (w a.clock.key)) _ h₃ in
      let (p₀, e₃, h₅) = >>=-eq-ok (read cs.stake_pool a.pool w) _ h₄ in
      let (_, h₆) =
        fail_if-eq-ok (ltb_ℤ clock.unix_timestamp p₀.pool_active_until)
          (into cannot_unlock_when_pool_is_active) _ h₅ in
      let (_, checked, h₇) = >>=-eq-ok (check_lock rt cs program_id a w) _ h₆ in
      let (p', moved, h₈) = >>=-eq-ok (unlock_tiers t₀.amount input.amount p₀) _ h₇ in
      let bump = (find_2key_program_address rt a.pool.key a.user_wallet.key program_id).1 in
      let (w₁, sent, put) =
        >>=-eq-ok
          (token_transfer_signature rt a.pool_lock_token_account_xsos a.user_token_account_xsos
            a.pool_user_authority
            (key_seed a.pool.key ∷ key_seed a.user_wallet.key ∷ bump_seed bump ∷ []) input.amount w)
          _ h₈ in
      let (l, lock) = check_lock-IsLock rt cs program_id a w checked in
      let same_t : t ≡ t₀ = ground (arith, token.unpacks _ t unpacked, e₂) in
      let same_p : p ≡ p₀ = ground (arith, stored, e₃) in
      let owned = first_owner program_id a.pool (a.pool_lock ∷ []) w owners in
      let kept =
        call_keeps system_program token_program staking_program rt isolated program_id _ _ _ w w₁
          a.pool.key (λ e. not_token (sym e)) owned sent in
      let (t', after, sum) = token.debits _ _ _ _ _ _ _ w w₁ t sent apart_token unpacked in
      let (b, encoded, written, owner) = write-ok cs.stake_pool p' a.pool w₁ put in
      let rest =
        write_keeps cs.stake_pool p' a.pool w₁ a.pool_lock_token_account_xsos.key put apart in
      let done : unlock_tiers t.amount input.amount p ≡ ok p' = rw (same_t, same_p) moved in
      let left : t'.amount ≡ t.amount - input.amount = omega arith in
      let (_, fewer, raised) = unlock_tiers-users t.amount input.amount p k done in
      (
        l,
        p',
        t',
        lock,
        is_signer-ok a.user_wallet signed,
        owner ∙ kept.same_owner ∙ owned,
        rw written
            (lawful.reads_back p p' (w₁ a.pool.key).bytes b (rw kept.same_bytes stored) encoded),
        rw rest after,
        sum,
        unlock_tiers-eq t.amount input.amount p done,
        fewer,
        rw left raised,
      )
