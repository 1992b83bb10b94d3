-- ===== src/Tests/Histories.antt =====
-- Histories of locks and of investments at concrete pools.
use solstarter.Common.{
  ◌*◌, ◌+◌, ◌≤◌, sum, length, ℕ, pos, ◌≡◌, refl, none, some, List, [], ◌∷◌, arith,
}
use solstarter.Solana.{ok, err}
use solstarter.Staking.Error.{underflow, into}
use solstarter.Staking.State.{StakePool, v1, get_tier}
use solstarter.Staking.Processor.Lock.{lock_tiers, unlock_tiers}
use solstarter.Staking.Processor.Lock.Counted.{IsCounted}
use solstarter.Staking.Processor.Lock.History.{
  History, fresh, joins, locks, unlocks, History-IsCounted, counts_never_block,
  zero_tier_blocks_first_lock,
}
use solstarter.Ido.State.{Pool, final_stage}
use solstarter.Ido.State.Sale.{precision, collected_to_distributed}
use solstarter.Ido.Processor.Participate.{check_amount, invest}
use solstarter.Ido.Processor.Participate.History.{
  Sale, opens, invests, Claims, books_balance, payments_covered,
}
use solstarter.Tests.Codec.{pool_with}

abbrev pool_of : List ℕ → ℕ → StakePool
pool_of users first = record {
  version = v1;
  token_account_sos = 31;
  pool_mint_xsos = 32;
  ido_authority = 33;
  tier_users = users;
  tier_balance = first ∷ 20 ∷ 30 ∷ 40 ∷ [];
  transit_incoming = pos 60;
  transit_outgoing = pos 60;
  pool_active_until = pos 0;
}

abbrev new : StakePool
new = pool_of (0 ∷ 0 ∷ 0 ∷ 0 ∷ []) 10

abbrev one_locked : StakePool
one_locked = pool_of (0 ∷ 1 ∷ 0 ∷ 0 ∷ []) 10

abbrev two_locked : StakePool
two_locked = pool_of (1 ∷ 1 ∷ 0 ∷ 0 ∷ []) 10

above_zero : get_tier new.tier_balance 0 ≡ none
unfolding get_tier
above_zero = refl

-- Two users lock 25 and 12, and the first unlocks all but 5.
sample : History new (pool_of (1 ∷ 0 ∷ 0 ∷ 0 ∷ []) 10) (5 ∷ 12 ∷ [])
unfolding lock_tiers unlock_tiers get_tier
sample =
    let first : History new one_locked (25 ∷ 0 ∷ []) =
      locks 0 0 25 (joins (joins fresh)) refl refl in
    let second : History new two_locked (25 ∷ 12 ∷ []) = locks 1 0 12 first refl refl in
    unlocks 0 25 20 second refl refl refl

History-IsCounted_example :
    IsCounted (pool_of (1 ∷ 0 ∷ 0 ∷ 0 ∷ []) 10) (5 ∷ 12 ∷ [])
    × ((pool_of (1 ∷ 0 ∷ 0 ∷ 0 ∷ []) 10).tier_balance ≡ new.tier_balance)
History-IsCounted_example = History-IsCounted new refl above_zero sample

counts_never_block_example :
    ((q' : StakePool) × (lock_tiers 12 30 (pool_of (1 ∷ 0 ∷ 0 ∷ 0 ∷ []) 10) ≡ ok q'))
    × ((q' : StakePool) × (unlock_tiers 12 12 (pool_of (1 ∷ 0 ∷ 0 ∷ 0 ∷ []) 10) ≡ ok q'))
counts_never_block_example =
    counts_never_block new refl above_zero 1 12 30 refl sample refl (omega arith) (omega arith)

zero_reached : get_tier (0 ∷ 20 ∷ 30 ∷ 40 ∷ []) 0 ≡ some 0
unfolding get_tier
zero_reached = refl

zero_tier_blocks_first_lock_example :
    lock_tiers 0 25 (pool_of (0 ∷ 0 ∷ 0 ∷ 0 ∷ []) 0) ≡ err (into underflow)
zero_tier_blocks_first_lock_example =
    zero_tier_blocks_first_lock (pool_of (0 ∷ 0 ∷ 0 ∷ 0 ∷ []) 0) 0 25 zero_reached refl
      (omega arith) (omega arith)

-- A sale at three tokens for one: investments of 10 and of 11 buy three tokens each, and 21 buys seven.
abbrev sale : ℕ → ℕ → Pool
sale collected distributed = record (pool_with collected distributed []) { price = 3_000_000_000 }

two_investments : Sale (sale 0 0) (sale 21 6) (11 ∷ 10 ∷ [])
unfolding check_amount invest
two_investments =
    let first : Sale (sale 0 0) (sale 10 3) (10 ∷ []) =
      invests 12 10 none final_stage opens refl (omega arith) refl in
    invests 11 11 none final_stage first refl (omega arith) refl

books_balance_example :
    (21 ≡ sum (11 ∷ 10 ∷ []))
    × (21 ≤ 1000)
    × (6 * 3_000_000_000 ≤ 21 * precision)
    × (21 * precision ≤ (6 + length {A = ℕ} (11 ∷ 10 ∷ [])) * 3_000_000_000)
books_balance_example = books_balance (sale 0 0) refl refl (omega arith) two_investments

all_at_once : Claims (sale 21 6) (21 ∷ []) (7 ∷ [])
unfolding collected_to_distributed
all_at_once = (refl, tt)

payments_covered_example : sum (7 ∷ []) ≤ 6 + length {A = ℕ} (11 ∷ 10 ∷ [])
payments_covered_example =
    payments_covered (sale 0 0) refl refl (omega arith) (21 ∷ []) (7 ∷ []) (omega arith)
      two_investments (omega arith) all_at_once
