-- ===== src/Tests/Sale.antt =====
-- The theorems on the operations of a sale at a concrete pool.
use solstarter.Common.{
  ℕ, pos, ◌+◌, ◌-◌, ◌*◌, ◌^◌, ◌≤◌, ◌<◌, ◌≡◌, ◌-ℤ◌, ◌↔◌, wrapping_sub_i64, refl, some, [], ◌∷◌, sum,
  arith,
}
use solstarter.Solana.{Clock, ok}
use solstarter.Ido.Instruction.{InitializePool, validate}
use solstarter.Ido.Instruction.Validate.{IsSound, validate_iff}
use solstarter.Ido.State.{Pool, initial_stage, tier_allocation_stage, not_required}
use solstarter.Ido.State.Sale.{
  precision, collected_to_distributed, set_tier_allocations, get_current_stage,
}
use solstarter.Ido.State.Price.{collected_to_distributed_rounds_down}
use solstarter.Ido.State.Stages.{get_current_stage-eq}
use solstarter.Ido.State.Allocations.{set_tier_allocations_never_oversells}
use solstarter.Ido.Processor.Participate.{check_amount, invest}
use solstarter.Ido.Processor.Participate.Invest.{check_amount_wraps}
use solstarter.Tests.Codec.{pool_with}

abbrev terms : InitializePool
terms = record {
  pool_owner = 19;
  price = 500_000_000;
  goal_max = 1000;
  goal_min = 100;
  amount_min = 10;
  amount_max = 300;
  time_start = pos 1000;
  time_finish = pos 2000;
  kyc_requirement = not_required;
  time_table = 100 ∷ 200 ∷ [];
}

abbrev at_time : ℕ → Clock
at_time t = record { unix_timestamp = pos t }

validate_iff_example : (validate terms (at_time 500) ≡ ok tt) ↔ IsSound terms (pos 500)
unfolding ◌-ℤ◌
validate_iff_example = validate_iff terms (at_time 500) (omega arith) (omega arith, omega arith)

valid : validate terms (at_time 500) ≡ ok tt
unfolding validate ◌-ℤ◌ wrapping_sub_i64
valid = refl

abbrev empty : Pool
empty = pool_with 0 0 (400 ∷ 400 ∷ 400 ∷ 400 ∷ [])

get_current_stage-eq_example : get_current_stage empty (at_time 1150) ≡ ok tier_allocation_stage
unfolding ◌-ℤ◌
get_current_stage-eq_example =
    get_current_stage-eq empty (at_time 1150) refl (omega arith, omega arith)

buys : collected_to_distributed empty 7 ≡ ok 14
unfolding collected_to_distributed
buys = refl

buys_less : collected_to_distributed empty 5 ≡ ok 10
unfolding collected_to_distributed
buys_less = refl

buys_both : collected_to_distributed empty (7 + 5) ≡ ok 24
unfolding collected_to_distributed
buys_both = refl

collected_to_distributed_rounds_down_example :
    (0 < 500_000_000)
    × (14 * 500_000_000 ≤ 7 * precision)
    × (7 * precision < (14 + 1) * 500_000_000)
    × (14 < 2 ^ 64)
collected_to_distributed_rounds_down_example = collected_to_distributed_rounds_down empty 7 buys

allocated :
    set_tier_allocations empty (3 ∷ 1 ∷ []) (10 ∷ 20 ∷ [])
    ≡ ok (record empty { tier_allocation = 400 ∷ 800 ∷ []; tier_remaining = 1200 ∷ 800 ∷ [] })
unfolding set_tier_allocations
allocated = refl

set_tier_allocations_never_oversells_example :
    sum (1200 ∷ 800 ∷ []) * 500_000_000 ≤ 1000 * precision
set_tier_allocations_never_oversells_example =
    set_tier_allocations_never_oversells empty (3 ∷ 1 ∷ []) (10 ∷ 20 ∷ []) allocated

abbrev after : Pool
after = pool_with 50 100 (400 ∷ 300 ∷ 400 ∷ 400 ∷ [])

invested : invest empty 50 (some 1) initial_stage ≡ ok after
unfolding invest
invested = refl

check_amount_wraps_example :
    check_amount (record (pool_with 900 0 []) { amount_investment_max = 2 ^ 64 - 1 }) (2 ^ 64 - 900)
    ≡ ok tt
check_amount_wraps_example =
    check_amount_wraps (record (pool_with 900 0 []) { amount_investment_max = 2 ^ 64 - 1 })
      (2 ^ 64 - 900) (omega arith) (omega arith) (omega arith) (omega arith) (omega arith)
      (omega arith)
