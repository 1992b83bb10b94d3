-- ===== src/Ido/State/Sale.antt =====
-- The operations of `Pool` in ido/program/src/state.rs.
use solstarter.Common.{
  ℕ, zero, suc, ℤ, pos, Bool, Option, none, some, List, [], ◌∷◌, leb, ltb_ℤ, min, take, set,
  try_from, wrapping_sub_i64, ◌||◌, if◌then◌else◌,
}
use solstarter.Solana.{
  Clock, Result, ok, err, panic, fail_if, require, ok_or, unwrap, index, ◌>>=◌, ◌>>◌,
}
use solstarter.Staking.State.{get_tier}
use solstarter.Ido.Error.{
  overflow, cant_deposit_at_current_time, can_participate_only_in_started_pool,
  account_on_this_tier_cannot_participate_on_current_stage, into,
}
use solstarter.Ido.Math.{error_add, error_sub, error_mul, error_div}
use solstarter.Ido.State.{
  Pool, Stage, initial_stage, tier_allocation_stage, final_stage, check_initialized,
}

abbrev pub precision : ℕ
precision = 1_000_000_000

unfoldable pub success : Pool → Bool
success p = leb p.goal_min_collected p.amount_collected

unfoldable pub collected_to_distributed : Pool → ℕ → Result ℕ
unfolding error_mul error_div
collected_to_distributed p amount_collected = do
  product ← error_mul amount_collected precision
  distributed ← error_div product p.price
  ok_or (try_from 64 distributed) (into overflow)

-- The write to `tier_remaining`, made when a tier is given and the stage is not the final one.
unfoldable pub take_from_tier : Pool → ℕ → Option ℕ → Stage → Result Pool
unfolding error_sub
take_from_tier p amount_to_distribute tier final_stage = ok p
take_from_tier p amount_to_distribute none stage = ok p
take_from_tier p amount_to_distribute (some tier) stage = do
  remaining ← index p.tier_remaining tier
  left ← error_sub remaining amount_to_distribute
  ok (record p { tier_remaining = set p.tier_remaining tier left })

unfoldable pub update_distributed_from_collected : Pool → ℕ → Option ℕ → Stage → Result Pool
unfolding collected_to_distributed take_from_tier error_add
update_distributed_from_collected p amount tier stage = do
  amount_to_distribute ← collected_to_distributed p amount
  p' ← take_from_tier p amount_to_distribute tier stage
  total ← error_add 64 p'.amount_to_distribute amount_to_distribute
  ok (record p' { amount_to_distribute = total })

-- The first loop of `set_tier_allocations`: `total_shares`, over both arrays in step.
unfoldable pub add_shares : ℕ → List ℕ → List ℕ → Result ℕ
unfolding error_mul error_add
add_shares total_shares [] users = ok total_shares
add_shares total_shares (balance ∷ balances) [] = panic
add_shares total_shares (balance ∷ balances) (users ∷ rest) = do
  share ← error_mul balance users
  total ← error_add 128 total_shares share
  add_shares total balances rest

-- The body of its second loop: what one tier may buy in all, and each of its users.
unfoldable pub allocate_tier : Pool → ℕ → ℕ → ℕ → Result (ℕ × ℕ)
unfolding error_mul error_div
allocate_tier p total_shares balance users = do
  raised ← error_mul balance p.goal_max_collected
  scaled ← error_mul raised precision
  priced ← error_div scaled p.price
  per_tier_distributed ← error_div priced total_shares
  tier_total ← error_mul per_tier_distributed users
  remaining ← ok_or (try_from 64 tier_total) (into overflow)
  allocation ← ok_or (try_from 64 per_tier_distributed) (into overflow)
  ok (remaining, allocation)

-- The second loop: the new `tier_remaining` and `tier_allocation`.
unfoldable pub allocate_tiers : Pool → ℕ → List ℕ → List ℕ → Result (List ℕ × List ℕ)
unfolding allocate_tier
allocate_tiers p total_shares [] users = ok ([], [])
allocate_tiers p total_shares (balance ∷ balances) [] = panic
allocate_tiers p total_shares (balance ∷ balances) (users ∷ rest) = do
  (remaining, allocation) ← allocate_tier p total_shares balance users
  (remainings, allocations) ← allocate_tiers p total_shares balances rest
  ok (remaining ∷ remainings, allocation ∷ allocations)

unfoldable pub set_tier_allocations : Pool → List ℕ → List ℕ → Result Pool
unfolding add_shares allocate_tiers
set_tier_allocations p tier_users tier_balance = do
  total_shares ← add_shares 0 tier_balance tier_users
  (remainings, allocations) ← allocate_tiers p total_shares tier_balance tier_users
  ok (record p { tier_allocation = allocations; tier_remaining = remainings })

-- `Stage::from_usize`.
abbrev pub from_usize : ℕ → Option Stage
from_usize zero = some initial_stage
from_usize (suc zero) = some tier_allocation_stage
from_usize (suc (suc zero)) = some final_stage
from_usize (suc (suc (suc i))) = none

-- The loop of `get_current_stage` from index `i` on.
unfoldable pub find_stage : ℕ → List ℕ → ℤ → Result Stage
find_stage i [] accumulate = ok final_stage
find_stage i (value ∷ values) accumulate =
    let rest = find_stage (suc i) values (wrapping_sub_i64 accumulate (pos value)) in
    if ltb_ℤ accumulate (pos value) then unwrap (from_usize i) else rest

unfoldable pub get_current_stage : Pool → Clock → Result Stage
unfolding find_stage
get_current_stage p clock = do
  fail_if (ltb_ℤ clock.unix_timestamp p.time_start || ltb_ℤ p.time_finish clock.unix_timestamp)
      (into cant_deposit_at_current_time)
  find_stage 0 (take 2 p.time_table) (wrapping_sub_i64 clock.unix_timestamp p.time_start)

abbrev possible_amount : Pool → ℕ → Stage → List ℕ → Option ℕ → Result ℕ
possible_amount p amount initial_stage tier_balance (some tier) = index tier_balance tier
possible_amount p amount tier_allocation_stage tier_balance (some tier) =
    index p.tier_remaining tier
possible_amount p amount final_stage tier_balance tier = ok amount
possible_amount p amount stage tier_balance none =
    err (into account_on_this_tier_cannot_participate_on_current_stage)

unfoldable pub stage_investment : Pool → ℕ → Stage → List ℕ → ℕ → Result (ℕ × Option ℕ)
stage_investment p amount stage tier_balance pool_lock_amount = do
  let tier = get_tier tier_balance pool_lock_amount
  possible ← possible_amount p amount stage tier_balance tier
  ok (min amount possible, tier)

unfoldable pub was_started : Pool → ℤ → Result (Unit {0})
unfolding check_initialized
was_started p now = do
  check_initialized p.version
  require (ltb_ℤ p.time_start now) (into can_participate_only_in_started_pool)
