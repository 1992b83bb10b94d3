-- ===== src/Tests/Settling.antt =====
-- The theorems on claims and withdrawals at a concrete store.
use solstarter.Common.{ℕ, ◌-◌, ◌≤◌, ◌≤ℤ◌, ◌≡◌, refl, true, none, some, sum, length, [], ◌∷◌, arith}
use solstarter.Solana.{World, Clock, TokenAccount, ok}
use solstarter.Ido.State.{Pool, final_stage, check_initialized}
use solstarter.Ido.Math.{error_sub}
use solstarter.Ido.Invoke.{token_transfer, burn_tokens_with_user_authority}
use solstarter.Ido.State.Sale.{success, collected_to_distributed, was_started}
use solstarter.Ido.Processor.Settle.{
  ClaimAccounts, WithdrawAccounts, claim, withdraw, pay_claim, adjustment,
}
use solstarter.Ido.Processor.Settle.Claim.{Pays, claim-Pays}
use solstarter.Ido.Processor.Settle.Withdraw.{Owed, withdraw-Owed}
use solstarter.Ido.Processor.Settle.Covered.{Covers, withdraw_leaves_enough}
use solstarter.Ido.Processor.Participate.{check_amount, invest}
use solstarter.Ido.Processor.Participate.History.{Sale, opens, invests, Claims}
use solstarter.Tests.Platform.{runtime, run_call, runtime-IsToken}
use solstarter.Tests.Codec.{pool_codec, pool_with}
use solstarter.Tests.SaleStore.{codecs, ido, info, signing, store, left}

abbrev claim_accounts : ClaimAccounts
claim_accounts = record {
  market = info 11;
  pool = info 10;
  pool_authority = info 20;
  account_from = info 32;
  user_authority = signing 33;
  mint_pool = info 18;
  account_pool = info 17;
  account_to = info 31;
  clock = info 40;
}

abbrev sold : World
sold = store 2500 (200 ∷ 400 ∷ 5 ∷ []) 200 1000

unfoldable claimed : World
unfolding claim run_call pay_claim was_started check_initialized
claimed = left sold (claim runtime codecs ido claim_accounts sold)

claim_runs : claim runtime codecs ido claim_accounts sold ≡ ok claimed
unfolding claim claimed run_call pay_claim was_started check_initialized
claim_runs = refl

claim-Pays_example :
    (clock : Clock) × (p : Pool) × (t : TokenAccount) × (burnt : World) × (runtime.clock_from
        claim_accounts.clock
        (sold 40)
      ≡ ok clock)
    × (pool_codec.try_from_slice (sold 10).bytes ≡ some p)
    × (p.market ≡ 11)
    × (p.time_finish ≤ℤ clock.unix_timestamp)
    × (18 ≡ p.mint_pool)
    × (runtime.unpack_account (sold 32).bytes ≡ ok t)
    × (burn_tokens_with_user_authority runtime (info 32) (info 18) (signing 33) t.amount sold
        ≡ ok burnt)
    × Pays runtime codecs ido claim_accounts p t.amount burnt claimed
claim-Pays_example = claim-Pays runtime codecs ido claim_accounts sold claimed claim_runs

abbrev withdraw_accounts : WithdrawAccounts
withdraw_accounts = record {
  market = info 11;
  pool = info 10;
  pool_authority = info 20;
  pool_owner = signing 19;
  account_from = info 17;
  account_to = info 31;
  clock = info 40;
}

unfoldable withdrawn : World
unfolding withdraw run_call adjustment success error_sub was_started check_initialized
withdrawn = left sold (withdraw runtime codecs ido withdraw_accounts sold)

withdraw_runs : withdraw runtime codecs ido withdraw_accounts sold ≡ ok withdrawn
unfolding withdraw withdrawn run_call adjustment success error_sub was_started check_initialized
withdraw_runs = refl

withdraw-Owed_example :
    (clock : Clock) × (p : Pool) × (t : TokenAccount) × (left : ℕ) × (runtime.clock_from
        withdraw_accounts.clock
        (sold 40)
      ≡ ok clock)
    × (pool_codec.try_from_slice (sold 10).bytes ≡ some p)
    × (true ≡ true)
    × (19 ≡ p.owner)
    × (p.time_finish ≤ℤ clock.unix_timestamp)
    × (runtime.unpack_account (sold 17).bytes ≡ ok t)
    × Owed p 17 left
    × (left ≤ t.amount)
    × (token_transfer runtime 10
          (info 17)
          (info 31)
          (info 20)
          p.authority_bump_seed
          (t.amount - left)
          sold
        ≡ ok withdrawn)
withdraw-Owed_example =
    withdraw-Owed runtime codecs ido withdraw_accounts sold withdrawn withdraw_runs

-- Investments of 50 and of 60 buy 100 and 120 tokens, and meet the goal.
met : Sale (pool_with 0 0 []) (pool_with 110 220 []) (60 ∷ 50 ∷ [])
unfolding check_amount invest
met =
    let first : Sale (pool_with 0 0 []) (pool_with 50 100 []) (50 ∷ []) =
      invests 50 50 none final_stage opens refl (omega arith) refl in
    invests 60 60 none final_stage first refl (omega arith) refl

both_paid : Claims (pool_with 110 220 []) (40 ∷ 70 ∷ []) (80 ∷ 140 ∷ [])
unfolding collected_to_distributed
both_paid = (refl, (refl, tt))

abbrev over : World
over = store 2500 (110 ∷ 220 ∷ []) 110 250

unfoldable settled : World
unfolding withdraw run_call adjustment success error_sub was_started check_initialized
settled = left over (withdraw runtime codecs ido withdraw_accounts over)

settle_runs : withdraw runtime codecs ido withdraw_accounts over ≡ ok settled
unfolding withdraw settled run_call adjustment success error_sub was_started check_initialized
settle_runs = refl

withdraw_leaves_enough_example :
    (t' : TokenAccount) × (runtime.unpack_account (settled 17).bytes ≡ ok t')
    × Covers
        (pool_with 110 220 [])
        17
        t'.amount
        (sum (80 ∷ 140 ∷ []))
        (length {A = ℕ} (60 ∷ 50 ∷ []))
        (sum (40 ∷ 70 ∷ []))
withdraw_leaves_enough_example =
    withdraw_leaves_enough runtime codecs ido withdraw_accounts runtime-IsToken over settled
      (pool_with 0 0 []) (pool_with 110 220 []) (60 ∷ 50 ∷ []) (40 ∷ 70 ∷ []) (80 ∷ 140 ∷ [])
      (omega arith) refl refl refl (omega arith) (omega arith) met (omega arith) both_paid
      settle_runs
