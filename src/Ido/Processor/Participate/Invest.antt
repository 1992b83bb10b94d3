-- ===== src/Ido/Processor/Participate/Invest.antt =====
-- The money of a participation in ido/program/src/processor.rs: what is taken, what the pool counts,
-- and what is paid out in pool tokens.
use solstarter.Common.{ℕ, ◌+◌, ◌≤◌, ◌<◌, ◌^◌, ◌≡◌, refl, Option, none, some, IsWord, arith}
use solstarter.Solana.{World, Runtime, Pubkey, ok, >>=-eq-ok}
use solstarter.Ido.Math.{error_add}
use solstarter.Ido.State.{Pool, Stage, initial_stage, tier_allocation_stage, final_stage}
use solstarter.Ido.State.Sale.{collected_to_distributed}
use solstarter.Ido.State.Price.{Charged, update_distributed_from_collected-Charged}
use solstarter.Ido.Processor.Shared.{Codecs}
use solstarter.Ido.Processor.Participate.{
  ParticipateAccounts, check_amount, invest, amount_and_tier,
}

-- What an investment of `amount` does to a pool.
pub record Invests (p p' : Pool) (amount : ℕ) (tier : Option ℕ) (stage : Stage) (d : ℕ)
    : Type 0 where
  pub bought : collected_to_distributed p amount ≡ ok d
  pub charged : Charged p p' d tier stage
  pub others : p' ≡ record p {
    amount_collected = p.amount_collected + amount;
    amount_to_distribute = p.amount_to_distribute + d;
    tier_remaining = p'.tier_remaining;
  }

Charged-collected :
    (p p' : Pool) (c d : ℕ) (tier : Option ℕ) (stage : Stage)
    → Charged (record p { amount_collected = c }) p' d tier stage
    → Charged p p' d tier stage
Charged-collected p p' c d tier final_stage h = h
Charged-collected p p' c d none initial_stage h = h
Charged-collected p p' c d none tier_allocation_stage h = h
Charged-collected p p' c d (some tier) initial_stage h = h
Charged-collected p p' c d (some tier) tier_allocation_stage h = h

bought_collected :
    (p : Pool) (c amount : ℕ)
    → collected_to_distributed (record p { amount_collected = c }) amount
      ≡ collected_to_distributed p amount
unfolding collected_to_distributed
bought_collected p c amount = refl

-- A successful investment adds the amount to the amount collected and what it buys to the tokens to
-- distribute, charges the tier, and changes nothing else of the pool.
pub invest-Invests :
    (p : Pool) (amount : ℕ) (tier : Option ℕ) (stage : Stage) {p' : Pool}
    → invest p amount tier stage ≡ ok p'
    → (d : ℕ) × Invests p p' amount tier stage d
unfolding invest
invest-Invests p amount tier stage {p'} h =
    let (c, e, h₁) = >>=-eq-ok (error_add 64 p.amount_collected amount) _ h in
    let sum : c ≡ p.amount_collected + amount = ground arith in
    let q : Pool = record p { amount_collected = c } in
    let (d, b, ch, rest) = update_distributed_from_collected-Charged q amount tier stage h₁ in
    (
      d,
      record {
        bought = b;
        charged = Charged-collected p p' c d tier stage ch;
        others = rw (← sum) rest;
      },
    )

-- An amount taken is never more than the amount offered.
pub amount_and_tier-le :
    (rt : Runtime) (cs : Codecs) (program_id : Pubkey) (stage : Stage) (a : ParticipateAccounts)
    (p : Pool) (offered : ℕ) (w : World) {amount : ℕ} {tier : Option ℕ}
    → amount_and_tier rt cs program_id stage a p offered w ≡ ok (amount, tier)
    → amount ≤ offered
unfolding amount_and_tier
amount_and_tier-le rt cs program_id final_stage a p offered w h = ground arith
amount_and_tier-le rt cs program_id initial_stage a p offered w h = ground arith
amount_and_tier-le rt cs program_id tier_allocation_stage a p offered w h = ground arith

-- Where the unchecked sum of the goal check does not wrap around, an investment of no more than an
-- amount that passes the check keeps the amount collected within the goal.
pub Invests-le-goal :
    (p p' : Pool) (offered amount : ℕ) (tier : Option ℕ) (stage : Stage) (d : ℕ)
    → p.amount_collected + offered < 2 ^ 64
    → check_amount p offered ≡ ok tt
    → amount ≤ offered
    → Invests p p' amount tier stage d
    → p'.amount_collected ≤ p.goal_max_collected
unfolding check_amount
Invests-le-goal p p' offered amount tier stage d small checked less i = ground (arith, i.others)

-- Where the sum of two `u64`s in the goal check reaches 2 ^ 64, it wraps around, and the check lets
-- through every amount within the limits of one investment, if the amount collected is within the goal.
pub check_amount_wraps :
    (p : Pool) (offered : ℕ)
    → IsWord 64 offered
    → IsWord 64 p.amount_collected
    → p.amount_investment_min ≤ offered
    → offered ≤ p.amount_investment_max
    → 2 ^ 64 ≤ p.amount_collected + offered
    → p.amount_collected ≤ p.goal_max_collected
    → check_amount p offered ≡ ok tt
unfolding check_amount
check_amount_wraps p offered small collected least most wraps within = ground arith
