-- ===== src/Tests/Transits.antt =====
-- The theorems on transits at a concrete store.
use solstarter.Common.{◌≡◌, ◌-ℤ◌, refl, true, arith}
use solstarter.Solana.{World, Clock, ok}
use solstarter.Staking.Math.{finish}
use solstarter.Staking.State.{outgoing, incoming}
use solstarter.Staking.Processor.Shared
use solstarter.Staking.Processor.Shared.{Codecs, LockInput}
use solstarter.Staking.Processor.Unstake.{UnstakeFinishAccounts, unstake_finish}
use solstarter.Staking.Processor.Stake.{StakeFinishAccounts, stake_finish}
use solstarter.Staking.Processor.Transit.{IsClaimed, unstake_finish-IsClaimed}
use solstarter.Staking.Processor.Transit.Stake.{stake_finish-IsClaimed}
use solstarter.Tests.Platform.{
  runtime, run_call, token_program, system_program, runtime-IsIsolated, runtime-IsToken,
}
use native.Mathlib.Decide.{ℕ_discrete}
use solstarter.Tests.StakeStore.{
  transit_with, PoolTransit-discrete, transit_codec-IsLawful, codecs, staking, info, signing, store,
  left,
}

abbrev unstake_accounts : UnstakeFinishAccounts
unstake_accounts = record {
  pool = info 10;
  pool_transit = info 70;
  pool_authority = info 1010;
  pool_transit_token_account_sos = info 60;
  user_wallet = signing 50;
  user_token_account_sos = info 51;
  clock = info 40;
}

unfoldable unstaked : World
unfolding unstake_finish run_call Shared.finish finish PoolTransit-discrete ℕ_discrete
unstaked = left (unstake_finish runtime (codecs outgoing) staking unstake_accounts store)

unstake_runs : unstake_finish runtime (codecs outgoing) staking unstake_accounts store ≡ ok unstaked
unfolding unstake_finish unstaked run_call Shared.finish finish PoolTransit-discrete ℕ_discrete ◌-ℤ◌
unstake_runs = refl

unstake_finish-IsClaimed_example :
    (clock : Clock) × (runtime.clock_from (info 40) (store 40) ≡ ok clock)
    × (true ≡ true)
    × (unstake_accounts.user_wallet.key ≡ 50)
    × (unstake_accounts.pool.key ≡ 10)
    × IsClaimed runtime (codecs outgoing) staking (transit_with outgoing 10) 25 clock 70 60 unstaked
unstake_finish-IsClaimed_example =
    unstake_finish-IsClaimed system_program token_program 3 runtime runtime-IsIsolated
      runtime-IsToken (codecs outgoing) (transit_codec-IsLawful outgoing) staking (omega arith)
      unstake_accounts store unstaked (transit_with outgoing 10) (record { mint = 31; amount = 25 })
      (omega arith) (omega arith) refl refl unstake_runs

abbrev stake_accounts : StakeFinishAccounts
stake_accounts = record {
  pool = info 10;
  pool_transit = info 70;
  pool_authority = info 1010;
  pool_token_account_sos = info 31;
  pool_transit_token_account_sos = info 60;
  user_token_account_xsos = info 52;
  user_wallet = signing 50;
  pool_mint_xsos = info 32;
  clock = info 40;
}

unfoldable staked : World
unfolding stake_finish run_call Shared.finish finish PoolTransit-discrete ℕ_discrete
staked = left (stake_finish runtime (codecs incoming) staking stake_accounts store)

stake_runs : stake_finish runtime (codecs incoming) staking stake_accounts store ≡ ok staked
unfolding stake_finish staked run_call Shared.finish finish PoolTransit-discrete ℕ_discrete ◌-ℤ◌
stake_runs = refl

stake_finish-IsClaimed_example :
    (clock : Clock) × (runtime.clock_from (info 40) (store 40) ≡ ok clock)
    × (true ≡ true)
    × (stake_accounts.user_wallet.key ≡ 50)
    × IsClaimed runtime (codecs incoming) staking (transit_with incoming 10) 25 clock 70 60 staked
stake_finish-IsClaimed_example =
    stake_finish-IsClaimed system_program token_program 3 runtime runtime-IsIsolated runtime-IsToken
      (codecs incoming) (transit_codec-IsLawful incoming) staking (omega arith) stake_accounts store
      staked (transit_with incoming 10) (record { mint = 31; amount = 25 }) (omega arith)
      (omega arith) (omega arith) (omega arith) refl refl stake_runs
