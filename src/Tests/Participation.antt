-- ===== src/Tests/Participation.antt =====
-- The theorems on participations at a concrete store.
use solstarter.Common.{
  ℕ, ◌+◌, ◌≤◌, ◌≡◌, ◌-ℤ◌, wrapping_sub_i64, refl, Option, none, some, [], ◌∷◌, arith,
}
use solstarter.Solana.{World, Clock, Rent, TokenAccount, ok}
use solstarter.Ido.Instruction
use solstarter.Ido.State.{Pool, Stage, MarketUserKyc, any_required, check_initialized}
use solstarter.Ido.State.Sale.{get_current_stage, was_started}
use solstarter.Ido.Processor.Participate.{
  ParticipateAccounts, participate, create_stage_account, check_participation, use_whitelist,
  amount_and_tier, invest, check_amount,
}
use solstarter.Ido.Processor.Participate.Invest.{Invests}
use solstarter.Ido.Processor.Participate.Checks.{
  IsAllowed, IsVerified, IsMarked, participate-IsAllowed,
}
use solstarter.Ido.Processor.Participate.Taken.{IsReached, Taken}
use solstarter.Ido.Processor.Participate.Stored.{participate_stores, participate_keeps_goal}
use solstarter.Ido.Processor.Participate.Backed.{participate_backs}
use solstarter.Tests.Platform.{
  runtime, run_call, token_program, system_program, runtime-IsIsolated, runtime-IsToken,
  runtime-IsTokenBurn, runtime-IsSystem, runtime-IsSystemFree,
}
use solstarter.Tests.Codec.{pool_codec, pool_codec-IsLawful, pool_with, Pool-discrete}
use native.Mathlib.Decide.{ℕ_discrete}
use solstarter.Tests.SaleStore.{codecs, ido, info, signing, store, left}

abbrev participate_accounts : ParticipateAccounts
participate_accounts = record {
  market = info 11;
  pool = info 10;
  pool_authority = info 20;
  pool_user_authority = info 1043;
  user_wallet = signing 33;
  user_account_from = info 30;
  account_collection = info 16;
  user_account_to = info 32;
  pool_lock_account = info 14;
  mint_pool = info 18;
  market_user_kyc = info 12;
  user_pool_stage = info 6043;
  pool_lock = info 15;
  stake_pool = info 13;
  rent = info 41;
  clock = info 40;
  account_whitelist = none;
  account_mint_whitelist = none;
}

abbrev open_sale : World
open_sale = store 1500 (200 ∷ 400 ∷ 5 ∷ []) 200 1000

abbrev offer : Instruction.Participate
offer = record { amount = 50 }

unfoldable participated : World
unfolding participate run_call create_stage_account check_participation use_whitelist
    amount_and_tier invest was_started check_initialized get_current_stage Pool-discrete ℕ_discrete
participated = left open_sale (participate runtime codecs ido participate_accounts offer open_sale)

participate_runs :
    participate runtime codecs ido participate_accounts offer open_sale ≡ ok participated
unfolding participate run_call participated create_stage_account check_participation use_whitelist
    amount_and_tier invest was_started check_initialized get_current_stage Pool-discrete ℕ_discrete
    ◌-ℤ◌ wrapping_sub_i64
participate_runs = refl

participate_stores_example :
    (p p' : Pool) × (amount : ℕ) × (tier : Option ℕ) × (stage : Stage) × (d : ℕ) × (clock : Clock)
    × (v : World) × (pool_codec.try_from_slice (open_sale 10).bytes ≡ some p)
    × (pool_codec.try_from_slice (participated 10).bytes ≡ some p')
    × ((participated 10).owner ≡ ido)
    × Invests p p' amount tier stage d
    × (amount ≤ 50)
    × (check_amount p 50 ≡ ok tt)
    × (runtime.clock_from (info 40) (open_sale 40) ≡ ok clock)
    × (get_current_stage p clock ≡ ok stage)
    × IsReached system_program token_program open_sale v
    × Taken runtime codecs participate_accounts stage p 50 v amount tier
participate_stores_example =
    participate_stores system_program token_program 3 runtime runtime-IsIsolated codecs ido
      participate_accounts (omega arith) (omega arith) pool_codec-IsLawful offer open_sale
      participated participate_runs

participate_keeps_goal_example :
    (p' : Pool) × (pool_codec.try_from_slice (participated 10).bytes ≡ some p')
    × (p'.goal_max_collected ≡ 1000)
    × (p'.amount_collected ≤ 1000)
participate_keeps_goal_example =
    participate_keeps_goal system_program token_program 3 runtime runtime-IsIsolated codecs ido
      participate_accounts (omega arith) (omega arith) pool_codec-IsLawful offer open_sale
      participated (pool_with 200 400 (5 ∷ [])) refl (omega arith) (omega arith) participate_runs

participate-IsAllowed_example :
    (clock : Clock) × (rent : Rent) × (p : Pool) × (stage : Stage) × (created : World) × IsAllowed
      runtime codecs ido participate_accounts clock p 50 open_sale
    × (runtime.clock_from (info 40) (open_sale 40) ≡ ok clock)
    × (get_current_stage p clock ≡ ok stage)
    × (create_stage_account runtime codecs ido participate_accounts stage rent open_sale
        ≡ ok created)
    × IsMarked runtime codecs ido participate_accounts system_program stage open_sale created
    × (p.kyc_requirement ≡ any_required
        → (kyc : MarketUserKyc) × IsVerified runtime codecs ido participate_accounts clock created
            kyc)
participate-IsAllowed_example =
    participate-IsAllowed runtime codecs ido participate_accounts system_program runtime-IsSystem
      runtime-IsSystemFree offer open_sale participated participate_runs

participate_backs_example :
    (p' : Pool) × (t' : TokenAccount) × (pool_codec.try_from_slice (participated 10).bytes
      ≡ some p')
    × (runtime.unpack_account (participated 16).bytes ≡ ok t')
    × (t'.amount + 200 ≡ 200 + p'.amount_collected)
participate_backs_example =
    participate_backs system_program token_program 3 runtime runtime-IsIsolated runtime-IsTokenBurn
      codecs ido participate_accounts (omega arith) runtime-IsToken pool_codec-IsLawful
      (omega arith) (omega arith) offer open_sale participated (pool_with 200 400 (5 ∷ []))
      (record { mint = 61; amount = 200 }) (omega arith) (omega arith) (omega arith)
      (λ b none_given. cc) (λ b none_given. cc) refl refl refl participate_runs
