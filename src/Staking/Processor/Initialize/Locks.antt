-- ===== src/Staking/Processor/Initialize/Locks.antt =====
-- A lock that `initialize_lock` of staking/program/src/processor.rs creates, as `lock` and `unlock` check it.
use solstarter.Common.{
  ◌≡◌, ◌≢◌, ◌⊎◌, inl, inr, ltb_ℤ, refl, sym, ap, ◌∙◌, ◌==◌, true, some, [], ◌∷◌, arith,
}
use solstarter.Solana.{
  World, Runtime, Pubkey, Result, ok, err, fail_if-eq-ok, >>=-eq-ok, require-eq-ok, is_owner,
  is_signer, read, key_seed, bump_seed, IsSystem, IsLawful, write-ok, read-ok, is_signer-ok,
  same-eq,
}
use solstarter.Staking.Error.{
  cannot_lock_when_pool_is_active, cannot_unlock_when_pool_is_active, invalid_authority,
  wrong_account_specified, derived_pool_lock_account_key_is_not_equal_to_calculated, into,
}
use solstarter.Staking.Program.{
  find_2key_program_address, create_account_with_seed_signed, lock_seed,
}
use solstarter.Staking.Invoke.{initialize_token_account}
use solstarter.Staking.State.{PoolLock, v1}
use solstarter.Staking.Processor.Shared.{Codecs, LockInput, UnlockInput}
use solstarter.Staking.Processor.Initialize.{InitializeLockAccounts, initialize_lock, pool_lock_len}
use solstarter.Staking.Processor.Lock.{LockAccounts, check_lock, lock, unlock}
use solstarter.Staking.Processor.Lock.Released.{check_lock-IsLock}

same-true : (k : Pubkey) → (k == k) ≡ true
same-true k = ground arith

module _ (rt : Runtime) (program_id : Pubkey) (a : InitializeLockAccounts) where
  -- The accounts `l` are those of the lock that was made, with an authority that derives its key.
  pub record IsOfLock (l : LockAccounts) : Type 0 where
    pub of_user : l.user_wallet.key ≡ a.user_wallet.key
    pub of_pool : l.pool.key ≡ a.pool.key
    pub of_token : l.pool_lock_token_account_xsos.key ≡ a.pool_lock_token_account_xsos.key
    pub of_authority :
        rt.create_with_seed l.pool_user_authority.key lock_seed program_id ≡ ok a.pool_lock.key

-- Neither `lock` nor `unlock` succeeds on the accounts `l` in the store `v`, whatever the amount.
pub record IsRefused (rt : Runtime) (cs : Codecs) (program_id : Pubkey) (l : LockAccounts)
    (v : World) : Type 0 where
  pub by_lock : (input : LockInput) (v' : World) → lock rt cs program_id l input v ≢ ok v'
  pub by_unlock : (input : UnlockInput) (v' : World) → unlock rt cs program_id l input v ≢ ok v'

lock-check_lock :
    (rt : Runtime) (cs : Codecs) (program_id : Pubkey) (l : LockAccounts) (input : LockInput)
    (v v' : World)
    → lock rt cs program_id l input v ≡ ok v'
    → check_lock rt cs program_id l v ≡ ok tt
unfolding lock
lock-check_lock rt cs program_id l input v v' h =
    let (_, _, h₁) = >>=-eq-ok (is_owner program_id (l.pool ∷ l.pool_lock ∷ []) v) _ h in
    let (_, _, h₂) =
      >>=-eq-ok (rt.unpack_account_from_slice (v l.pool_lock_token_account_xsos.key).bytes) _ h₁ in
    let (p, _, h₃) = >>=-eq-ok (read cs.stake_pool l.pool v) _ h₂ in
    let (clock, _, h₄) = >>=-eq-ok (rt.clock_from l.clock (v l.clock.key)) _ h₃ in
    let (_, h₅) =
      fail_if-eq-ok (ltb_ℤ clock.unix_timestamp p.pool_active_until)
        (into cannot_lock_when_pool_is_active) _ h₄ in
    (>>=-eq-ok (check_lock rt cs program_id l v) _ h₅).1

unlock-check_lock :
    (rt : Runtime) (cs : Codecs) (program_id : Pubkey) (l : LockAccounts) (input : UnlockInput)
    (v v' : World)
    → unlock rt cs program_id l input v ≡ ok v'
    → check_lock rt cs program_id l v ≡ ok tt
unfolding unlock
unlock-check_lock rt cs program_id l input v v' h =
    let (_, _, h₁) = >>=-eq-ok (is_owner program_id (l.pool ∷ l.pool_lock ∷ []) v) _ h in
    let (_, _, h₂) = >>=-eq-ok (is_signer l.user_wallet) _ h₁ in
    let (_, _, h₃) =
      >>=-eq-ok (rt.unpack_account_from_slice (v l.pool_lock_token_account_xsos.key).bytes) _ h₂ in
    let (clock, _, h₄) = >>=-eq-ok (rt.clock_from l.clock (v l.clock.key)) _ h₃ in
    let (p, _, h₅) = >>=-eq-ok (read cs.stake_pool l.pool v) _ h₄ in
    let (_, h₆) =
      fail_if-eq-ok (ltb_ℤ clock.unix_timestamp p.pool_active_until)
        (into cannot_unlock_when_pool_is_active) _ h₅ in
    (>>=-eq-ok (check_lock rt cs program_id l v) _ h₆).1

-- A check passes or does not.
ok_or_not : (r : Result (Unit {0})) → (r ≡ ok tt) ⊎ (r ≢ ok tt)
ok_or_not (ok tt) = inl refl
ok_or_not (err e) = inr (λ h. cc)
ok_or_not Result.panic = inr (λ h. cc)

module _ (rt : Runtime) (cs : Codecs) (program_id : Pubkey) (a : InitializeLockAccounts)
    (w w' : World) where
  -- What a successful `initialize_lock` has checked and written.
  record IsLockMade : Type 0 where
    pub signed : a.user_wallet.is_signer ≡ true
    pub derived :
        rt.create_with_seed a.pool_user_authority.key lock_seed program_id ≡ ok a.pool_lock.key
    pub owned : (w' a.pool_lock.key).owner ≡ program_id
    pub stored :
        cs.pool_lock.try_from_slice (w' a.pool_lock.key).bytes
        ≡ some (record {
          version = v1;
          pool = a.pool.key;
          user_wallet = a.user_wallet.key;
          token_account_xsos = a.pool_lock_token_account_xsos.key;
        })

  initialize_lock-IsLockMade :
      IsSystem rt
      → IsLawful cs.pool_lock
      → initialize_lock rt cs program_id a w ≡ ok w'
      → IsLockMade
  unfolding initialize_lock
  initialize_lock-IsLockMade system lawful h =
      let (_, _, h₁) = >>=-eq-ok (is_owner program_id (a.pool ∷ []) w) _ h in
      let (_, signed, h₂) = >>=-eq-ok (is_signer a.user_wallet) _ h₁ in
      let (p, _, h₃) = >>=-eq-ok (read cs.stake_pool a.pool w) _ h₂ in
      let authority = (find_2key_program_address rt a.pool.key a.user_wallet.key program_id).0 in
      let bump = (find_2key_program_address rt a.pool.key a.user_wallet.key program_id).1 in
      let (same, h₄) =
        require-eq-ok (authority == a.pool_user_authority.key) (into invalid_authority) _ h₃ in
      let (_, h₅) =
        require-eq-ok (p.pool_mint_xsos == a.pool_mint_xsos.key) (into wrong_account_specified) _
          h₄ in
      let (w₁, _, h₆) =
        >>=-eq-ok
          (initialize_token_account rt a.pool_lock_token_account_xsos a.pool_mint_xsos
            a.pool_user_authority a.rent w)
          _ h₅ in
      let (k, derived, h₇) = >>=-eq-ok (rt.create_with_seed authority lock_seed program_id) _ h₆ in
      let (key, h₈) =
        require-eq-ok (k == a.pool_lock.key)
          (into derived_pool_lock_account_key_is_not_equal_to_calculated) _ h₇ in
      let (rent, _, h₉) = >>=-eq-ok (rt.rent_from a.rent (w₁ a.rent.key)) _ h₈ in
      let (w₂, made, g₁) =
        >>=-eq-ok
          (create_account_with_seed_signed rt a.user_wallet a.pool_lock a.pool_user_authority
            lock_seed (rent.minimum_balance pool_lock_len) pool_lock_len program_id
            (key_seed a.pool.key ∷ key_seed a.user_wallet.key ∷ bump_seed bump ∷ []) w₁)
          _ h₉ in
      let (old, found, put) = >>=-eq-ok (read cs.pool_lock a.pool_lock w₂) _ g₁ in
      let new : PoolLock = record {
        version = v1;
        pool = a.pool.key;
        user_wallet = a.user_wallet.key;
        token_account_xsos = a.pool_lock_token_account_xsos.key;
      } in
      let (b, encoded, written, owner) = write-ok cs.pool_lock new a.pool_lock w₂ put in
      record {
        signed = is_signer-ok a.user_wallet signed;
        derived =
            ap (λ x. rt.create_with_seed x lock_seed program_id) (sym (same-eq _ _ same))
            ∙ derived
            ∙ ap ok (same-eq _ _ key);
        owned = owner ∙ system.creates _ _ _ _ _ _ _ _ _ _ _ made;
        stored = rw written (
            lawful.reads_back old new (w₂ a.pool_lock.key).bytes b
              (read-ok cs.pool_lock a.pool_lock w₂ found) encoded);
      }

  check_made :
      (l : LockAccounts) (v : World)
      → l.pool_lock.key ≡ a.pool_lock.key
      → cs.pool_lock.try_from_slice (v l.pool_lock.key).bytes
        ≡ some (record {
          version = v1;
          pool = a.pool.key;
          user_wallet = a.user_wallet.key;
          token_account_xsos = a.pool_lock_token_account_xsos.key;
        })
      → IsOfLock rt program_id a l
      → check_lock rt cs program_id l v ≡ ok tt
  unfolding check_lock
  check_made l v same found is =
      rw (found, is.of_user, is.of_pool, is.of_authority, is.of_token, same)
        (rw
          (
            same-true a.user_wallet.key,
            same-true a.pool.key,
            same-true a.pool_lock.key,
            same-true a.pool_lock_token_account_xsos.key,
          )
          refl)

  made_checked :
      (l : LockAccounts) (v : World)
      → l.pool_lock.key ≡ a.pool_lock.key
      → cs.pool_lock.try_from_slice (v l.pool_lock.key).bytes
        ≡ some (record {
          version = v1;
          pool = a.pool.key;
          user_wallet = a.user_wallet.key;
          token_account_xsos = a.pool_lock_token_account_xsos.key;
        })
      → check_lock rt cs program_id l v ≡ ok tt
      → IsOfLock rt program_id a l
  made_checked l v same found checked =
      let (record_of, is) = check_lock-IsLock rt cs program_id l v checked in
      let e = is.stored in
      record {
        of_user = ground (arith, is.of_user, e, found);
        of_pool = ground (arith, is.of_pool, e, found);
        of_token = ground (arith, is.of_token, e, found);
        of_authority = is.derived ∙ ap ok same;
      }

  -- On a runtime where created accounts belong to the owner given, with a codec of locks that reads back
  -- what it writes: after a successful `initialize_lock`, which the user has signed, the program owns the
  -- record, and as long as its data stay as they are, for any accounts given to `lock` and `unlock` with
  -- this record, either they are those of that user, pool and token account with an authority that
  -- derives the record's key, and pass the check of the lock, or they are not, and both fail.
  pub initialize_lock-check_lock :
      IsSystem rt
      → IsLawful cs.pool_lock
      → initialize_lock rt cs program_id a w ≡ ok w'
      → (l : LockAccounts) (v : World) → l.pool_lock.key ≡ a.pool_lock.key
      → (v l.pool_lock.key).bytes ≡ (w' a.pool_lock.key).bytes
      → (a.user_wallet.is_signer ≡ true)
        × ((w' a.pool_lock.key).owner ≡ program_id)
        × ((IsOfLock rt program_id a l × (check_lock rt cs program_id l v ≡ ok tt))
            ⊎ ((¬ IsOfLock rt program_id a l) × IsRefused rt cs program_id l v))
  initialize_lock-check_lock system lawful h l v same kept =
      let made = initialize_lock-IsLockMade system lawful h in
      let found = ap cs.pool_lock.try_from_slice kept ∙ made.stored in
      (
        made.signed,
        made.owned,
        elim (ok_or_not (check_lock rt cs program_id l v)) [
          | inl passed ↦ inl (made_checked l v same found passed, passed)
          | inr failed ↦ inr (
            (λ is. failed (check_made l v same found is)),
            record {
              by_lock =
                  λ input v' done. failed (lock-check_lock rt cs program_id l input v v' done);
              by_unlock =
                  λ input v' done. failed (unlock-check_lock rt cs program_id l input v v' done);
            },
          )
        ],
      )
