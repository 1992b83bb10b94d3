-- ===== src/Tests/Sales.antt =====
-- The theorem on new sales at a concrete store, over the runtime of Tests/Platform.antt.
use mathlib.Core.Logic.{ite}
use native.Mathlib.Decide.{ℕ_discrete}
use solstarter.Common.{
  pos, ◌≡◌, ◌==◌, ◌-ℤ◌, wrapping_sub_i64, ◌||◌, if◌then◌else◌, refl, sym, true, false, none, some,
  Option, [], ◌∷◌, arith,
}
use solstarter.Solana.{Pubkey, Bytes, World, AccountInfo, Clock, Codec, Result, ok, IsLawful}
use solstarter.Ido.Instruction.{InitializePool, validate}
use solstarter.Ido.Instruction.Validate.{IsSound}
use solstarter.Ido.State.{
  Market, Pool, MintWhitelist, check_initialized, check_uninitialized, uninitialized_version,
  not_required, any_required,
}
use solstarter.Ido.Processor.Shared.{Codecs, validate_market_owner}
use solstarter.Ido.Processor.Initialize.{InitializePoolAccounts, initialize_pool, make_whitelist}
use solstarter.Ido.Processor.Initialize.Stored.{IsMarketOf, IsPoolOf, initialize_pool-IsSound}
use solstarter.Tests.Platform.{runtime, run_call, token_program, system_program, runtime-IsIsolated}
use solstarter.Tests.Codec.{Pool-discrete}

abbrev account : Pubkey → AccountInfo
account k = record { key = k; is_signer = false }

abbrev accounts : InitializePoolAccounts
accounts = record {
  market = account 11;
  pool = account 10;
  market_owner = record { key = 21; is_signer = true };
  mint_collection = account 61;
  mint_distribution = account 62;
  account_collection = account 63;
  account_distribution = account 64;
  mint_pool = account 65;
  pool_authority = account 1010;
  rent = account 41;
  clock = account 40;
  mint_whitelist = some (account 66);
}

abbrev terms : InitializePool
terms = record {
  pool_owner = 19;
  price = 500_000_000;
  goal_max = 1000;
  goal_min = 100;
  amount_min = 10;
  amount_max = 300;
  time_start = pos 1000;
  time_finish = pos 2000;
  kyc_requirement = any_required;
  time_table = 100 ∷ 200 ∷ [];
}

abbrev blank : Pool
blank = record {
  version = uninitialized_version;
  market = 0;
  account_collection = 0;
  account_distribution = 0;
  mint_pool = 0;
  mint_whitelist = MintWhitelist.none 0;
  kyc_requirement = not_required;
  price = 0;
  goal_max_collected = 0;
  goal_min_collected = 0;
  amount_investment_min = 0;
  amount_investment_max = 0;
  time_start = pos 0;
  time_finish = pos 0;
  amount_collected = 0;
  amount_to_distribute = 0;
  owner = 0;
  authority = 0;
  authority_bump_seed = 0;
  tier_allocation = [];
  tier_remaining = [];
  time_table = [];
}

-- The blank pool with the terms and the accounts.
abbrev opened : Pool
opened = record blank {
  version = 1;
  market = 11;
  account_collection = 63;
  account_distribution = 64;
  mint_pool = 65;
  mint_whitelist = MintWhitelist.key 66;
  kyc_requirement = any_required;
  price = 500_000_000;
  goal_max_collected = 1000;
  goal_min_collected = 100;
  amount_investment_min = 10;
  amount_investment_max = 300;
  time_start = pos 1000;
  time_finish = pos 2000;
  owner = 19;
  authority = 1010;
  authority_bump_seed = 255;
  time_table = 100 ∷ 200 ∷ [];
}

abbrev decode_pool : Bytes → Option Pool
decode_pool [] = some blank
decode_pool (n ∷ _) = some opened

abbrev encode_pool : Pool → Bytes → Option Bytes
encode_pool p b = ite (Pool-discrete p opened) (some (1 ∷ [])) none

abbrev pool_codec : Codec Pool
pool_codec = record { try_from_slice = decode_pool; serialize = encode_pool }

pool_written :
    (new : Pool) (b b' : Bytes)
    → Dec (new ≡ opened)
    → encode_pool new b ≡ some b'
    → some new ≡ decode_pool b'
pool_written new b b' (yes e) put = ground arith
pool_written new b b' (no ne) put = ground arith

pool_codec-IsLawful : IsLawful pool_codec
pool_codec-IsLawful = record {
  reads_back = λ old new b b' was put. sym (pool_written new b b' (Pool-discrete new opened) put);
}

abbrev market : Market
market = record { version = 1; owner = 21; stake_pool = 13 }

abbrev codecs : Codecs
codecs = record {
  market = record { try_from_slice = λ b. some market; serialize = λ m b. some b };
  pool = pool_codec;
  market_user_kyc = record { try_from_slice = λ b. none; serialize = λ k b. none };
  stake_pool = record { try_from_slice = λ b. none; serialize = λ s b. none };
  pool_lock = record { try_from_slice = λ b. none; serialize = λ l b. none };
}

-- The key of the IDO program in this store.
abbrev ido : Pubkey
ido = 5

-- A blank pool under 10, its market under 11, the time under 40, and token accounts and mints elsewhere.
abbrev before : World
before k =
    if k == 10 || k == 11
    then record { owner = ido; lamports = 1; bytes = [] }
    else if k == 40
    then record { owner = system_program; lamports = 1; bytes = 500 ∷ [] }
    else record { owner = token_program; lamports = 1; bytes = 6 ∷ [] }

abbrev left : Result World → World
left (ok w) = w
left _ = before

unfoldable after : World
unfolding initialize_pool validate validate_market_owner make_whitelist run_call check_initialized
    check_uninitialized Pool-discrete ℕ_discrete ◌-ℤ◌ wrapping_sub_i64
after = left (initialize_pool runtime codecs ido accounts terms before)

initialize_runs : initialize_pool runtime codecs ido accounts terms before ≡ ok after
unfolding initialize_pool after validate validate_market_owner make_whitelist run_call
    check_initialized check_uninitialized Pool-discrete ℕ_discrete ◌-ℤ◌ wrapping_sub_i64
initialize_runs = refl

initialize_pool-IsSound_example :
    (clock : Clock) × (m : Market) × (was : Pool) × (new : Pool) × (runtime.clock_from
        (account 40)
        (before 40)
      ≡ ok clock)
    × IsSound terms clock.unix_timestamp
    × IsMarketOf codecs accounts before m
    × (some blank ≡ some was)
    × (was.version ≡ uninitialized_version)
    × ((after 10).owner ≡ ido)
    × (pool_codec.try_from_slice (after 10).bytes ≡ some new)
    × IsPoolOf accounts terms 255 was new
unfolding ◌-ℤ◌
initialize_pool-IsSound_example =
    initialize_pool-IsSound system_program token_program 3 runtime runtime-IsIsolated codecs
      pool_codec-IsLawful ido (omega arith) accounts terms before after (omega arith)
      (omega arith, omega arith) initialize_runs
