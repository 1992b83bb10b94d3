-- ===== src/Tests/Locks.antt =====
-- The theorems on `lock` and `unlock` at a concrete store.
use solstarter.Common.{
  ◌+◌, ◌≡◌, ◌==◌, if◌then◌else◌, refl, true, some, [], ◌∷◌, set, zero, suc, arith,
}
use solstarter.Solana.{World, TokenAccount, ok}
use solstarter.Staking.State.{StakePool, PoolLock, incoming, get_tier}
use solstarter.Staking.Processor.Shared.{LockInput, UnlockInput}
use solstarter.Staking.Processor.Lock.{
  LockAccounts, lock, unlock, lock_tiers, unlock_tiers, check_lock,
}
use solstarter.Staking.Processor.Lock.Released.{IsLock, unlock_releases}
use solstarter.Staking.Processor.Lock.Tiers.{users_at, balance_at, hits}
use solstarter.Staking.Processor.Lock.Counted.{IsCounted, count_tier}
use solstarter.Staking.Processor.Lock.Stored.{lock-IsCounted}
use solstarter.Tests.Platform.{
  runtime, run_call, token_program, system_program, runtime-IsIsolated, runtime-IsToken,
}
use native.Mathlib.Decide.{ℕ_discrete}
use solstarter.Tests.StakeStore.{
  pool_with, StakePool-discrete, pool_codec, pool_codec-IsLawful, codecs, staking, entry, info,
  signing, store, left,
}

abbrev lock_accounts : LockAccounts
lock_accounts = record {
  pool = info 10;
  user_wallet = signing 50;
  pool_lock = info 5044;
  pool_user_authority = info 44;
  pool_lock_token_account_xsos = info 60;
  user_token_account_xsos = info 51;
  clock = info 40;
}

abbrev lock_store : World
lock_store k = if k == 5044 then entry staking [] else store k

abbrev ten : LockInput
ten = record { amount = 10 }

unfoldable locked : World
unfolding lock run_call lock_tiers get_tier check_lock StakePool-discrete ℕ_discrete
locked = left (lock runtime (codecs incoming) staking lock_accounts ten lock_store)

lock_runs : lock runtime (codecs incoming) staking lock_accounts ten lock_store ≡ ok locked
unfolding lock locked run_call lock_tiers get_tier check_lock StakePool-discrete ℕ_discrete
lock_runs = refl

one-IsCounted : IsCounted (pool_with (0 ∷ 1 ∷ 0 ∷ 0 ∷ [])) (25 ∷ [])
unfolding count_tier get_tier
one-IsCounted zero = refl
one-IsCounted (suc zero) = refl
one-IsCounted (suc (suc zero)) = refl
one-IsCounted (suc (suc (suc zero))) = refl
one-IsCounted (suc (suc (suc (suc k)))) = ground arith

lock-IsCounted_example :
    (p' : StakePool) × (t' : TokenAccount) × ((locked 10).owner ≡ staking)
    × (pool_codec.try_from_slice (locked 10).bytes ≡ some p')
    × (runtime.unpack_account (locked 60).bytes ≡ ok t')
    × (t'.amount ≡ 25 + 10)
    × IsCounted p' (set (25 ∷ []) 0 t'.amount)
lock-IsCounted_example =
    lock-IsCounted system_program token_program 3 runtime runtime-IsIsolated runtime-IsToken
      (codecs incoming) pool_codec-IsLawful staking (omega arith) lock_accounts ten lock_store
      locked (pool_with (0 ∷ 1 ∷ 0 ∷ 0 ∷ [])) (record { mint = 31; amount = 25 }) (25 ∷ []) 0
      (omega arith) (omega arith) refl refl one-IsCounted refl lock_runs

abbrev twenty : UnlockInput
twenty = record { amount = 20 }

unfoldable unlocked : World
unfolding unlock run_call unlock_tiers get_tier check_lock StakePool-discrete ℕ_discrete
unlocked = left (unlock runtime (codecs incoming) staking lock_accounts twenty lock_store)

unlock_runs : unlock runtime (codecs incoming) staking lock_accounts twenty lock_store ≡ ok unlocked
unfolding unlock unlocked run_call unlock_tiers get_tier check_lock StakePool-discrete ℕ_discrete
unlock_runs = refl

unlock_releases_example :
    (l : PoolLock) × (p' : StakePool) × (t' : TokenAccount) × IsLock runtime
      (codecs incoming)
      staking
      lock_accounts
      lock_store
      l
    × (true ≡ true)
    × ((unlocked 10).owner ≡ staking)
    × (pool_codec.try_from_slice (unlocked 10).bytes ≡ some p')
    × (runtime.unpack_account (unlocked 60).bytes ≡ ok t')
    × (t'.amount + 20 ≡ 25)
    × (p' ≡ record (pool_with (0 ∷ 1 ∷ 0 ∷ 0 ∷ [])) {
      tier_users = p'.tier_users;
      tier_balance = p'.tier_balance;
    })
    × (users_at p' 1 + hits (get_tier (10 ∷ 20 ∷ 30 ∷ 40 ∷ []) 25) 1 ≡ 1)
    × (balance_at p' 1 ≡ 20 + hits (get_tier (10 ∷ 20 ∷ 30 ∷ 40 ∷ []) t'.amount) 1)
unlock_releases_example =
    unlock_releases system_program token_program 3 runtime runtime-IsIsolated runtime-IsToken
      (codecs incoming) pool_codec-IsLawful staking (omega arith) lock_accounts twenty lock_store
      unlocked (pool_with (0 ∷ 1 ∷ 0 ∷ 0 ∷ [])) (record { mint = 31; amount = 25 }) 1 (omega arith)
      (omega arith) refl refl unlock_runs
