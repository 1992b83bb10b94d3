-- ===== src/Tests/Staking.antt =====
-- The theorems on the staking program at concrete transits, tiers and locks.
use solstarter.Common.{
  ℕ, pos, ◌+◌, ◌-◌, ◌≤◌, ◌≡◌, refl, some, List, [], ◌∷◌, arith, zero, suc, ◌-ℤ◌,
}
use solstarter.Solana.{ok, err}
use solstarter.Staking.Error.{underflow, into}
use solstarter.Staking.Math.{finish}
use solstarter.Staking.Math.Finish.{TimesFit, finish-eq-vested}
use solstarter.Staking.Math.Finish.Schedule.{Amounts, claim_all, claim_all-eq-largest_share}
use solstarter.Staking.State.{StakePool, v1, get_tier}
use solstarter.Staking.State.Tier.{Answers, get_tier-Answers}
use solstarter.Staking.Processor.Lock.{lock_tiers, unlock_tiers}
use solstarter.Staking.Processor.Lock.Tiers.{
  users_at, hits, unlock_tiers-users, unlock_tiers_strands_rest,
}
use solstarter.Staking.Processor.Lock.Counted.{count_tier, IsCounted, lock_tiers_succeeds}

half_time : TimesFit (pos 100) (pos 150) (pos 200)
unfolding ◌-ℤ◌
half_time = record { interval_fits = ground arith; passed_fits = ground arith }

finish-eq-vested_example : finish (pos 100) (pos 150) (pos 200) 10 90 ≡ some 40
unfolding ◌-ℤ◌
finish-eq-vested_example =
    finish-eq-vested (pos 100) (pos 150) (pos 200) 10 90 half_time (omega arith) (omega arith)

half_paid : finish (pos 100) (pos 150) (pos 200) 10 90 ≡ some 40
unfolding finish ◌-ℤ◌
half_paid = refl

late_time : TimesFit (pos 100) (pos 250) (pos 200)
unfolding ◌-ℤ◌
late_time = record { interval_fits = ground arith; passed_fits = ground arith }

abbrev whole : Amounts
whole = record { claimed = 0; remaining = 100 }

early : TimesFit (pos 100) (pos 120) (pos 200)
unfolding ◌-ℤ◌
early = record { interval_fits = ground arith; passed_fits = ground arith }

three_quarters : TimesFit (pos 100) (pos 175) (pos 200)
unfolding ◌-ℤ◌
three_quarters = record { interval_fits = ground arith; passed_fits = ground arith }

claim_all-eq-largest_share_example :
    ((claim_all (pos 100) (pos 200) (pos 150 ∷ pos 120 ∷ pos 175 ∷ []) whole).claimed
        + (claim_all (pos 100) (pos 200) (pos 150 ∷ pos 120 ∷ pos 175 ∷ []) whole).remaining
      ≡ 100)
    × ((claim_all (pos 100) (pos 200) (pos 150 ∷ pos 120 ∷ pos 175 ∷ []) whole).claimed ≡ 75)
unfolding ◌-ℤ◌
claim_all-eq-largest_share_example =
    claim_all-eq-largest_share (pos 100) (pos 200) (pos 150 ∷ pos 120 ∷ pos 175 ∷ []) whole
      (half_time, (early, (three_quarters, tt))) (omega arith)

get_tier-Answers_example :
    Answers (10 ∷ 20 ∷ 30 ∷ 40 ∷ []) 25 (get_tier (10 ∷ 20 ∷ 30 ∷ 40 ∷ []) 25)
get_tier-Answers_example = get_tier-Answers (10 ∷ 20 ∷ 30 ∷ 40 ∷ []) 25

second_tier : get_tier (10 ∷ 20 ∷ 30 ∷ 40 ∷ []) 25 ≡ some 1
unfolding get_tier
second_tier = refl

-- A pool with four tiers and the given counts of users and first balance.
abbrev pool_of : List ℕ → ℕ → StakePool
pool_of users first = record {
  version = v1;
  token_account_sos = 31;
  pool_mint_xsos = 32;
  ido_authority = 33;
  tier_users = users;
  tier_balance = first ∷ 20 ∷ 30 ∷ 40 ∷ [];
  transit_incoming = pos 60;
  transit_outgoing = pos 60;
  pool_active_until = pos 0;
}

abbrev before : StakePool
before = pool_of (0 ∷ 1 ∷ 0 ∷ 0 ∷ []) 10

raised : lock_tiers 25 10 before ≡ ok (pool_of (0 ∷ 0 ∷ 1 ∷ 0 ∷ []) 10)
unfolding lock_tiers get_tier
raised = refl

abbrev two : StakePool
two = pool_of (1 ∷ 1 ∷ 0 ∷ 0 ∷ []) 10

two-IsCounted : IsCounted two (25 ∷ 12 ∷ [])
unfolding count_tier get_tier
two-IsCounted zero = refl
two-IsCounted (suc zero) = refl
two-IsCounted (suc (suc zero)) = refl
two-IsCounted (suc (suc (suc zero))) = refl
two-IsCounted (suc (suc (suc (suc k)))) = ground arith

two_raised : lock_tiers 25 10 two ≡ ok (pool_of (1 ∷ 0 ∷ 1 ∷ 0 ∷ []) 10)
unfolding lock_tiers get_tier
two_raised = refl

lock_tiers_succeeds_example : (p' : StakePool) × (lock_tiers 25 10 two ≡ ok p')
lock_tiers_succeeds_example =
    lock_tiers_succeeds two (25 ∷ 12 ∷ []) 0 25 10 two-IsCounted refl (omega arith) refl
      (omega arith)

lowered : unlock_tiers 17 3 (pool_of (1 ∷ 0 ∷ 0 ∷ 0 ∷ []) 10) ≡ ok (pool_of (0 ∷ 0 ∷ 0 ∷ 0 ∷ []) 11)
unfolding unlock_tiers get_tier
lowered = refl

unlock_tiers-users_example :
    (3 ≤ 17)
    × (users_at (pool_of (0 ∷ 0 ∷ 0 ∷ 0 ∷ []) 11) 0 + hits (get_tier (10 ∷ 20 ∷ 30 ∷ 40 ∷ []) 17) 0
        ≡ 1)
    × (11 ≡ 10 + hits (get_tier (10 ∷ 20 ∷ 30 ∷ 40 ∷ []) (17 - 3)) 0)
unlock_tiers-users_example = unlock_tiers-users 17 3 (pool_of (1 ∷ 0 ∷ 0 ∷ 0 ∷ []) 10) 0 lowered

first_tier : get_tier (10 ∷ 20 ∷ 30 ∷ 40 ∷ []) 17 ≡ some 0
unfolding get_tier
first_tier = refl

first_tier_kept : get_tier (11 ∷ 20 ∷ 30 ∷ 40 ∷ []) (17 - 3) ≡ some 0
unfolding get_tier
first_tier_kept = refl

unlock_tiers_strands_rest_example :
    unlock_tiers (17 - 3) 1 (pool_of (0 ∷ 0 ∷ 0 ∷ 0 ∷ []) 11) ≡ err (into underflow)
unlock_tiers_strands_rest_example =
    unlock_tiers_strands_rest 17 3 1 0 (pool_of (1 ∷ 0 ∷ 0 ∷ 0 ∷ []) 10) first_tier refl lowered
      first_tier_kept (omega arith)
