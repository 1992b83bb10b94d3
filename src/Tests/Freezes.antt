-- ===== src/Tests/Freezes.antt =====
-- The start of a sale with the staking program behind its call, at a concrete store: the runtime of
-- Tests/Platform.antt, but for calls of `start_pool`, which run the staking program.
use mathlib.Core.Logic.{ite}
use native.Mathlib.Decide.{ℕ_discrete}
use solstarter.Common.{
  ℤ, Bool, false, pos, ◌≡◌, ◌≢◌, ◌==◌, if◌then◌else◌, refl, true, none, some, Option, [], ◌∷◌,
  arith,
}
use solstarter.Solana.{
  Pubkey, Bytes, World, AccountInfo, Clock, Runtime, Call, start_pool, Codec, Result, ok, ◌>>=◌,
  infos, IsLawful,
}
use solstarter.Staking.Program
use solstarter.Staking.State.{StakePool, v1}
use solstarter.Staking.Instruction.Build
use solstarter.Staking.Processor.Shared as StakingShared
use solstarter.Staking.Processor.Shared.{LockInput, UnlockInput, StartPoolInput}
use solstarter.Staking.Processor.Dispatch as StakingDispatch
use solstarter.Staking.Processor.Lock.{LockAccounts, lock, unlock}
use solstarter.Staking.Processor.Start as StakingStart
use solstarter.Staking.Processor.Start.Stored.{IsStarted, start_pool-IsStarted}
use solstarter.Ido.State.{Market, check_initialized}
use solstarter.Ido.State.Sale.{set_tier_allocations}
use solstarter.Ido.Processor.Shared.{Codecs}
use solstarter.Ido.Processor.Start as IdoStart
use solstarter.Ido.Processor.Start.{StartPoolAccounts}
use solstarter.Ido.Processor.Start.Freezes.{RunsStaking, start_pool_freezes_locks}
use solstarter.Tests.Platform.{runtime, run_call, system_program}
use solstarter.Tests.Encoding.{
  sign, size, signed_of, signed_of-sign, staking_codec, staking_codec-IsInverse,
}
use solstarter.Tests.Codec.{pool_with, pool_codec, Pool-discrete}
use solstarter.Tests.Dispatch.{ids}

-- A pool of a hundred users in the first tier, active until the time given, of the market under 11.
abbrev active : ℤ → StakePool
active until = record {
  version = v1;
  token_account_sos = 31;
  pool_mint_xsos = 32;
  ido_authority = 1011;
  tier_users = 100 ∷ 0 ∷ 0 ∷ 0 ∷ [];
  tier_balance = 1 ∷ 2 ∷ 3 ∷ 4 ∷ [];
  transit_incoming = pos 60;
  transit_outgoing = pos 60;
  pool_active_until = until;
}

unfoldable StakePool-discrete : Discrete StakePool
StakePool-discrete = hlevel ℕ_discrete

abbrev decode_pool : Bytes → Option StakePool
decode_pool (s ∷ n ∷ []) = some (active (signed_of s n))
decode_pool _ = none

abbrev encode_pool : StakePool → Bytes → Option Bytes
encode_pool p b =
    ite (StakePool-discrete p (active p.pool_active_until))
      (some (sign p.pool_active_until ∷ size p.pool_active_until ∷ [])) none

abbrev stake_pool_codec : Codec StakePool
stake_pool_codec = record { try_from_slice = decode_pool; serialize = encode_pool }

pool_written :
    (new : StakePool) (b b' : Bytes)
    → Dec (new ≡ active new.pool_active_until)
    → encode_pool new b ≡ some b'
    → decode_pool b' ≡ some new
pool_written new b b' (yes e) put = ground (arith, signed_of-sign new.pool_active_until)
pool_written new b b' (no ne) put = ground arith

stake_pool_codec-IsLawful : IsLawful stake_pool_codec
stake_pool_codec-IsLawful = record {
  reads_back = λ old new b b' was put.
      pool_written new b b' (StakePool-discrete new (active new.pool_active_until)) put;
}

abbrev staking : StakingShared.Codecs
staking = record {
  stake_pool = stake_pool_codec;
  pool_transit = record { try_from_slice = λ b. none; serialize = λ s b. none };
  pool_lock = record { try_from_slice = λ b. none; serialize = λ s b. none };
}

abbrev everyone : Pubkey → Bool
everyone k = true

-- The instruction that the builder makes, run by the staking program.
abbrev run_staking : Runtime → Pubkey → Pubkey → ℤ → World → Result World
run_staking rt pool authority until w =
    Build.start_pool rt ids staking_codec pool authority (record { pool_active_until = until })
    >>= λ i.
        StakingDispatch.process_instruction rt staking i.program_id staking_codec
          (infos everyone i.accounts) i.bytes w

abbrev live_call : Call → World → Result World
live_call (start_pool pool authority until) w = run_staking runtime pool authority until w
live_call c w = run_call c w

abbrev live : Runtime
live = record runtime { invoke_signed = λ c accounts seeds w. live_call c w }

live-RunsStaking : RunsStaking live staking ids staking_codec
unfolding Build.start_pool StakingDispatch.process_instruction StakingStart.start_pool
live-RunsStaking = record { runs = λ pool authority until accounts seeds w w' h. (everyone, h) }

abbrev market : Market
market = record { version = 1; owner = 21; stake_pool = 13 }

abbrev codecs : Codecs
codecs = record {
  market = record { try_from_slice = λ b. some market; serialize = λ m b. some b };
  pool = pool_codec;
  market_user_kyc = record { try_from_slice = λ b. none; serialize = λ k b. none };
  stake_pool = stake_pool_codec;
  pool_lock = record { try_from_slice = λ b. none; serialize = λ l b. none };
}

-- The key of the IDO program in this store.
abbrev ido : Pubkey
ido = 5

abbrev account : Pubkey → AccountInfo
account k = record { key = k; is_signer = false }

-- A pool under 10 of the market under 11, the stake pool under 13, and the time under 40.
abbrev before : World
before k =
    if k == 10
    then record { owner = ido; lamports = 1; bytes = 200 ∷ 400 ∷ 5 ∷ [] }
    else if k == 11
    then record { owner = ido; lamports = 1; bytes = [] }
    else if k == 13
    then record { owner = Program.program_id; lamports = 1; bytes = 0 ∷ 0 ∷ [] }
    else if k == 40
    then record { owner = system_program; lamports = 1; bytes = 1500 ∷ [] }
    else record { owner = system_program; lamports = 0; bytes = [] }

abbrev left : Result World → World
left (ok w) = w
left _ = before

abbrev staking_accounts : StakingStart.StartPoolAccounts
staking_accounts = record {
  pool = account 13;
  market_authority = record { key = 1011; is_signer = true };
  clock = account 40;
}

abbrev until_finish : StartPoolInput
until_finish = record { pool_active_until = pos 2000 }

unfoldable activated : World
unfolding StakingStart.start_pool StakePool-discrete ℕ_discrete
activated = left (
    StakingStart.start_pool runtime staking Program.program_id staking_accounts until_finish before)

activation_runs :
    StakingStart.start_pool runtime staking Program.program_id staking_accounts until_finish before
    ≡ ok activated
unfolding StakingStart.start_pool activated StakePool-discrete ℕ_discrete
activation_runs = refl

start_pool-IsStarted_example :
    (p : StakePool) × (clock : Clock) × IsStarted runtime staking Program.program_id
      staking_accounts until_finish before activated p clock
start_pool-IsStarted_example =
    start_pool-IsStarted runtime staking stake_pool_codec-IsLawful Program.program_id
      staking_accounts until_finish before activated activation_runs

abbrev sale_accounts : StartPoolAccounts
sale_accounts = record {
  market = account 11;
  market_or_pool_owner = record { key = 19; is_signer = true };
  stake_pool = account 13;
  market_authority = account 1011;
  pool = account 10;
  clock = account 40;
}

unfoldable started : World
unfolding IdoStart.start_pool check_initialized set_tier_allocations Pool-discrete ℕ_discrete
    Build.start_pool StakingDispatch.process_instruction StakingStart.start_pool StakePool-discrete
started = left (IdoStart.start_pool live codecs ido sale_accounts before)

sale_starts : IdoStart.start_pool live codecs ido sale_accounts before ≡ ok started
unfolding IdoStart.start_pool started check_initialized set_tier_allocations Pool-discrete
    ℕ_discrete Build.start_pool StakingDispatch.process_instruction StakingStart.start_pool
    StakePool-discrete
sale_starts = refl

-- A user's lock of tokens in the stake pool.
abbrev lock_accounts : LockAccounts
lock_accounts = record {
  pool = account 13;
  user_wallet = record { key = 50; is_signer = true };
  pool_lock = account 5063;
  pool_user_authority = account 1063;
  pool_lock_token_account_xsos = account 60;
  user_token_account_xsos = account 51;
  clock = account 40;
}

abbrev five : LockInput
five = record { amount = 5 }

abbrev two : UnlockInput
two = record { amount = 2 }

time_kept : (started 40).bytes ≡ 1500 ∷ []
unfolding started IdoStart.start_pool check_initialized set_tier_allocations Pool-discrete
    ℕ_discrete Build.start_pool StakingDispatch.process_instruction StakingStart.start_pool
    StakePool-discrete
time_kept = refl

start_pool_freezes_locks_example :
    (lock live staking Program.program_id lock_accounts five started ≢ ok before)
    × (unlock live staking Program.program_id lock_accounts two started ≢ ok before)
start_pool_freezes_locks_example =
    start_pool_freezes_locks live staking stake_pool_codec-IsLawful ids staking_codec
      staking_codec-IsInverse live-RunsStaking codecs ido (omega arith) sale_accounts before started
      (pool_with 200 400 (5 ∷ [])) refl sale_starts lock_accounts started before
      (record { unix_timestamp = pos 1500 }) refl refl (rw time_kept refl) (omega arith) five two
