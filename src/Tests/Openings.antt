-- ===== src/Tests/Openings.antt =====
-- The theorems on the start of transits at a concrete store.
use mathlib.Core.Logic.{ite}
use native.Mathlib.Decide.{ℕ_discrete}
use solstarter.Common.{
  ℕ, pos, ◌+◌, ◌+ℤ◌, ◌≡◌, ◌==◌, if◌then◌else◌, refl, sym, true, none, some, Option, [], ◌∷◌, arith,
}
use solstarter.Solana.{Bytes, World, Clock, TokenAccount, Codec, ok, IsLawful}
use solstarter.Staking.Math.{error_add_i64}
use solstarter.Staking.State.{
  StakePool, PoolTransit, TransitDirection, StateVersion, incoming, outgoing, v1,
  check_uninitialized, check_initialized,
}
use solstarter.Staking.Processor.Shared.{Codecs, StakeStartInput, UnstakeStartInput}
use solstarter.Staking.Processor.Stake.{StakeStartAccounts, stake_start}
use solstarter.Staking.Processor.Unstake.{UnstakeStartAccounts, unstake_start}
use solstarter.Staking.Processor.Transit.Opened.{IsOpened, stake_start-IsOpened}
use solstarter.Staking.Processor.Transit.Outgoing.{unstake_start-IsOpened}
use solstarter.Tests.Platform.{
  runtime, run_call, token_program, system_program, runtime-IsIsolated, runtime-IsToken,
  runtime-IsTokenInit, runtime-IsClock,
}
use solstarter.Tests.Encoding.{size}
use solstarter.Tests.StakeStore.{
  PoolTransit-discrete, pool_codec, pool_with, staking, entry, info, signing, store, left,
}

-- A transit of user 50 under pool 10, not begun and begun.
abbrev transit_of : StateVersion → TransitDirection → ℕ → ℕ → PoolTransit
transit_of version direction start end = record {
  version = version;
  pool = 10;
  direction = direction;
  user_wallet = 50;
  token_account_sos = 60;
  transit_from = pos start;
  transit_until = pos end;
  amount_claimed = 0;
}

abbrev decode_transit : TransitDirection → Bytes → Option PoolTransit
decode_transit direction [] = some (transit_of StateVersion.uninitialized direction 0 0)
decode_transit direction (start ∷ end ∷ []) = some (transit_of v1 direction start end)
decode_transit direction _ = none

abbrev encode_transit : TransitDirection → PoolTransit → Bytes → Option Bytes
encode_transit direction p b =
    ite
      (PoolTransit-discrete p
        (transit_of v1 direction (size p.transit_from) (size p.transit_until)))
      (some (size p.transit_from ∷ size p.transit_until ∷ [])) none

abbrev transit_codec : TransitDirection → Codec PoolTransit
transit_codec direction = record {
  try_from_slice = decode_transit direction;
  serialize = encode_transit direction;
}

transit_written :
    (direction : TransitDirection) (new : PoolTransit) (b b' : Bytes)
    → Dec (new ≡ transit_of v1 direction (size new.transit_from) (size new.transit_until))
    → encode_transit direction new b ≡ some b'
    → some new ≡ decode_transit direction b'
transit_written direction new b b' (yes e) put = ground arith
transit_written direction new b b' (no ne) put = ground arith

transit_codec-IsLawful : (direction : TransitDirection) → IsLawful (transit_codec direction)
transit_codec-IsLawful direction = record {
  reads_back = λ old new b b' was put. sym (
      transit_written direction new b b'
        (PoolTransit-discrete new
          (transit_of v1 direction (size new.transit_from) (size new.transit_until)))
        put);
}

abbrev codecs : TransitDirection → Codecs
codecs direction = record {
  stake_pool = pool_codec;
  pool_transit = transit_codec direction;
  pool_lock = record { try_from_slice = λ b. none; serialize = λ l b. none };
}

-- The store with an empty record under 70, and pool tokens of the user under 52.
abbrev before : World
before k =
    if k == 70
    then entry staking []
    else if k == 52
    then entry token_program (32 ∷ 9 ∷ [])
    else store k

abbrev stake_accounts : StakeStartAccounts
stake_accounts = record {
  pool = info 10;
  pool_transit = info 70;
  pool_authority = info 1010;
  pool_token_account_sos = info 31;
  pool_transit_token_account_sos = info 60;
  mint_sos = info 31;
  user_wallet = signing 50;
  user_token_account_sos = info 51;
  rent = info 41;
  clock = info 40;
}

abbrev eleven : StakeStartInput
eleven = record { amount = 11 }

unfoldable staked : World
unfolding stake_start run_call check_uninitialized check_initialized error_add_i64
    PoolTransit-discrete ℕ_discrete ◌+ℤ◌
staked = left (stake_start runtime (codecs incoming) staking stake_accounts eleven before)

stake_runs : stake_start runtime (codecs incoming) staking stake_accounts eleven before ≡ ok staked
unfolding stake_start staked run_call check_uninitialized check_initialized error_add_i64
    PoolTransit-discrete ℕ_discrete ◌+ℤ◌
stake_runs = refl

stake_start-IsOpened_example :
    (p : StakePool) × (was : PoolTransit) × (clock : Clock) × (t : TokenAccount) × (more : ℕ)
    × (some (pool_with (0 ∷ 1 ∷ 0 ∷ 0 ∷ [])) ≡ some p)
    × (true ≡ true)
    × (runtime.clock_from (info 40) (before 40) ≡ ok clock)
    × IsOpened
        (codecs incoming)
        staking
        incoming
        70
        10
        50
        60
        clock
        p.transit_incoming
        before
        staked
        was
    × (runtime.unpack_account (staked 60).bytes ≡ ok t)
    × (t.amount ≡ more + 11)
stake_start-IsOpened_example =
    stake_start-IsOpened system_program token_program 3 runtime runtime-IsIsolated (codecs incoming)
      (transit_codec-IsLawful incoming) staking (omega arith) runtime-IsToken runtime-IsTokenInit
      runtime-IsClock stake_accounts eleven before staked (omega arith) (omega arith) (omega arith)
      stake_runs

abbrev unstake_accounts : UnstakeStartAccounts
unstake_accounts = record {
  pool = info 10;
  pool_authority = info 1010;
  pool_token_account_sos = info 31;
  pool_transit = info 70;
  pool_transit_token_account_sos = info 60;
  mint_sos = info 31;
  user_wallet = signing 50;
  user_token_account_xsos = info 52;
  mint_xsos = info 32;
  rent = info 41;
  clock = info 40;
}

abbrev five : UnstakeStartInput
five = record { amount = 5 }

unfoldable unstaked : World
unfolding unstake_start run_call check_uninitialized error_add_i64 PoolTransit-discrete ℕ_discrete
    ◌+ℤ◌
unstaked = left (unstake_start runtime (codecs outgoing) staking unstake_accounts five before)

unstake_runs :
    unstake_start runtime (codecs outgoing) staking unstake_accounts five before ≡ ok unstaked
unfolding unstake_start unstaked run_call check_uninitialized error_add_i64 PoolTransit-discrete
    ℕ_discrete ◌+ℤ◌
unstake_runs = refl

unstake_start-IsOpened_example :
    (p : StakePool) × (was : PoolTransit) × (clock : Clock) × (some (pool_with (0 ∷ 1 ∷ 0 ∷ 0 ∷ []))
      ≡ some p)
    × (p.pool_mint_xsos ≡ 32)
    × (runtime.clock_from (info 40) (before 40) ≡ ok clock)
    × IsOpened
        (codecs outgoing)
        staking
        outgoing
        70
        10
        50
        60
        clock
        p.transit_outgoing
        before
        unstaked
        was
unstake_start-IsOpened_example =
    unstake_start-IsOpened system_program token_program 3 runtime runtime-IsIsolated
      (codecs outgoing) (transit_codec-IsLawful outgoing) staking (omega arith) unstake_accounts
      five before unstaked unstake_runs
