-- ===== src/Tests/NewLocks.antt =====
-- The theorem on new locks at a concrete store.
use mathlib.Core.Logic.{ite}
use native.Mathlib.Decide.{ℕ_discrete}
use solstarter.Common.{◌≡◌, ◌⊎◌, refl, sym, ap, true, none, some, Option, [], ◌∷◌, arith}
use solstarter.Solana.{Bytes, World, Codec, ok, IsLawful}
use solstarter.Staking.State.{PoolLock, v1}
use solstarter.Staking.Processor.Shared.{Codecs}
use solstarter.Staking.Processor.Initialize.{InitializeLockAccounts, initialize_lock}
use solstarter.Staking.Processor.Initialize.Locks.{IsOfLock, IsRefused, initialize_lock-check_lock}
use solstarter.Staking.Processor.Lock.{LockAccounts, check_lock}
use solstarter.Tests.Platform.{runtime, run_call, runtime-IsSystem}
use solstarter.Tests.StakeStore.{pool_codec, staking, info, signing, store, left}

-- The lock of user 50 in the pool under 10, with its tokens under 60.
abbrev made : PoolLock
made = record { version = v1; pool = 10; user_wallet = 50; token_account_xsos = 60 }

unfoldable PoolLock-discrete : Discrete PoolLock
PoolLock-discrete = hlevel ℕ_discrete

abbrev encode_lock : PoolLock → Bytes → Option Bytes
encode_lock l b = ite (PoolLock-discrete l made) (some (1 ∷ [])) none

abbrev lock_codec : Codec PoolLock
lock_codec = record { try_from_slice = λ b. some made; serialize = encode_lock }

lock_written :
    (new : PoolLock) (b b' : Bytes) → Dec (new ≡ made) → encode_lock new b ≡ some b' → new ≡ made
lock_written new b b' (yes e) put = e
lock_written new b b' (no ne) put = ground arith

lock_codec-IsLawful : IsLawful lock_codec
lock_codec-IsLawful = record {
  reads_back = λ old new b b' was put.
      ap some (sym (lock_written new b b' (PoolLock-discrete new made) put));
}

abbrev codecs : Codecs
codecs = record {
  stake_pool = pool_codec;
  pool_transit = record { try_from_slice = λ b. none; serialize = λ t b. none };
  pool_lock = lock_codec;
}

abbrev accounts : InitializeLockAccounts
accounts = record {
  pool = info 10;
  user_wallet = signing 50;
  pool_lock = info 6060;
  pool_user_authority = info 1060;
  pool_mint_xsos = info 32;
  pool_lock_token_account_xsos = info 60;
  rent = info 41;
}

unfoldable after : World
unfolding initialize_lock run_call PoolLock-discrete ℕ_discrete
after = left (initialize_lock runtime codecs staking accounts store)

initialize_runs : initialize_lock runtime codecs staking accounts store ≡ ok after
unfolding initialize_lock after run_call PoolLock-discrete ℕ_discrete
initialize_runs = refl

abbrev lock_accounts : LockAccounts
lock_accounts = record {
  pool = info 10;
  user_wallet = signing 50;
  pool_lock = info 6060;
  pool_user_authority = info 1060;
  pool_lock_token_account_xsos = info 60;
  user_token_account_xsos = info 51;
  clock = info 40;
}

initialize_lock-check_lock_example :
    (true ≡ true)
    × ((after 6060).owner ≡ staking)
    × ((IsOfLock runtime staking accounts lock_accounts
          × (check_lock runtime codecs staking lock_accounts after ≡ ok tt))
        ⊎ ((¬ IsOfLock runtime staking accounts lock_accounts)
            × IsRefused runtime codecs staking lock_accounts after))
initialize_lock-check_lock_example =
    initialize_lock-check_lock runtime codecs staking accounts store after runtime-IsSystem
      lock_codec-IsLawful initialize_runs lock_accounts after refl refl
