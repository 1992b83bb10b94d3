-- ===== src/Tests/Start.antt =====
-- The theorem on the start of a sale at a concrete store, over the runtime of Tests/Platform.antt.
use solstarter.Common.{
  pos, ◌≤ℤ◌, ◌≡◌, ◌⊎◌, ◌==◌, if◌then◌else◌, refl, true, false, none, some, [], ◌∷◌, arith,
}
use solstarter.Solana.{Pubkey, World, AccountInfo, Clock, Result, ok}
use solstarter.Staking.State.{StakePool, v1}
use solstarter.Ido.State.{Market, Pool, check_initialized}
use solstarter.Ido.State.Sale.{set_tier_allocations}
use solstarter.Ido.Processor.Shared.{Codecs}
use solstarter.Ido.Processor.Start.{StartPoolAccounts, start_pool}
use solstarter.Ido.Processor.Start.Stored.{IsAllocated, start_pool-IsAllocated}
use solstarter.Tests.Platform.{runtime, run_call, token_program, system_program, runtime-IsIsolated}
use solstarter.Tests.Codec.{pool_codec, pool_codec-IsLawful, Pool-discrete}
use native.Mathlib.Decide.{ℕ_discrete}

-- A hundred users in the first of four tiers.
abbrev stakers : StakePool
stakers = record {
  version = v1;
  token_account_sos = 31;
  pool_mint_xsos = 32;
  ido_authority = 33;
  tier_users = 100 ∷ 0 ∷ 0 ∷ 0 ∷ [];
  tier_balance = 1 ∷ 2 ∷ 3 ∷ 4 ∷ [];
  transit_incoming = pos 60;
  transit_outgoing = pos 60;
  pool_active_until = pos 0;
}

abbrev market : Market
market = record { version = 1; owner = 21; stake_pool = 13 }

abbrev codecs : Codecs
codecs = record {
  market = record { try_from_slice = λ b. some market; serialize = λ m b. some b };
  pool = pool_codec;
  market_user_kyc = record { try_from_slice = λ b. none; serialize = λ k b. none };
  stake_pool = record { try_from_slice = λ b. some stakers; serialize = λ s b. some b };
  pool_lock = record { try_from_slice = λ b. none; serialize = λ l b. none };
}

-- The key of the IDO program in this store.
abbrev ido : Pubkey
ido = 5

abbrev info : Pubkey → AccountInfo
info k = record { key = k; is_signer = false }

-- A pool under 10 that has sold something, its market under 11, and the time under 40.
abbrev before : World
before k =
    if k == 10
    then record { owner = ido; lamports = 1; bytes = 200 ∷ 400 ∷ 5 ∷ [] }
    else if k == 11
    then record { owner = ido; lamports = 1; bytes = [] }
    else if k == 40
    then record { owner = system_program; lamports = 1; bytes = 1500 ∷ [] }
    else record { owner = system_program; lamports = 0; bytes = [] }

abbrev start_accounts : StartPoolAccounts
start_accounts = record {
  market = info 11;
  market_or_pool_owner = record { key = 19; is_signer = true };
  stake_pool = info 13;
  market_authority = info 1011;
  pool = info 10;
  clock = info 40;
}

abbrev left : Result World → World
left (ok w) = w
left _ = before

unfoldable started : World
unfolding start_pool check_initialized set_tier_allocations run_call Pool-discrete ℕ_discrete
started = left (start_pool runtime codecs ido start_accounts before)

start_runs : start_pool runtime codecs ido start_accounts before ≡ ok started
unfolding start_pool started check_initialized set_tier_allocations run_call Pool-discrete
    ℕ_discrete
start_runs = refl

start_pool-IsAllocated_example :
    (clock : Clock) × (m : Market) × (p p' : Pool) × (s : StakePool) × (runtime.clock_from
        (info 40)
        (before 40)
      ≡ ok clock)
    × (some market ≡ some m)
    × (pool_codec.try_from_slice (before 10).bytes ≡ some p)
    × (some stakers ≡ some s)
    × (start_accounts.market_or_pool_owner.is_signer ≡ true)
    × ((p.owner ≡ 19) ⊎ (m.owner ≡ 19))
    × (p.time_start ≤ℤ clock.unix_timestamp)
    × (clock.unix_timestamp ≤ℤ p.time_finish)
    × (p.market ≡ 11)
    × (m.stake_pool ≡ 13)
    × ((started 10).owner ≡ ido)
    × (pool_codec.try_from_slice (started 10).bytes ≡ some p')
    × IsAllocated p p' s
start_pool-IsAllocated_example =
    start_pool-IsAllocated system_program token_program 3 runtime runtime-IsIsolated codecs
      pool_codec-IsLawful ido (omega arith) start_accounts before started (omega arith) start_runs
