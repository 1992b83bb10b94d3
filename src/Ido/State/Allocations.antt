-- ===== src/Ido/State/Allocations.antt =====
-- `set_tier_allocations` of ido/program/src/state.rs: what the tiers may buy in all.
use native.Mathlib.Nat.{div-mul-le_self}
use solstarter.Common.{
  ℕ, zero, suc, ◌+◌, ◌*◌, ◌/◌, ◌≤◌, ◌<◌, ◌≡◌, refl, List, [], ◌∷◌, sum, dot, mul_mono, le_of_mul-le,
  arith,
}
use solstarter.Solana.{ok, >>=-eq-ok}
use solstarter.Ido.State.{Pool}
use solstarter.Ido.State.Sale.{
  precision, add_shares, allocate_tier, allocate_tiers, set_tier_allocations,
}

-- The first loop sums the balances of all users at the balance of their tier.
add_shares-eq :
    (total : ℕ) (balances users : List ℕ) {r : ℕ}
    → add_shares total balances users ≡ ok r
    → r ≡ total + dot balances users
unfolding add_shares
add_shares-eq total [] users h = ground arith
add_shares-eq total (b ∷ bs) [] h = cc
add_shares-eq total (b ∷ bs) (u ∷ us) h = grind (arith, add_shares-eq (total + b * u) bs us)

-- Two divisions, each rounded down, are no more than the exact quotient.
div-div-bound : (b price total : ℕ) → b / price / total * total * price ≤ b
div-div-bound b price total =
    let outer : b / price / total * total ≤ b / price = div-mul-le_self (b / price) total in
    let inner : b / price * price ≤ b = div-mul-le_self b price in
    let scaled : b / price / total * total * price ≤ b / price * price = mul_mono _ _ price outer in
    omega arith

share_bound :
    (balance users goal price total : ℕ)
    → balance * goal * precision / price / total * users * price * total
      ≤ balance * users * (goal * precision)
share_bound balance users goal price total =
    let d = div-div-bound (balance * goal * precision) price total in
    let q : ℕ = balance * goal * precision / price / total in
    let scaled : q * total * price * users ≤ balance * goal * precision * users =
      mul_mono _ _ users d in
    omega arith

-- A tier's total is its users times the allocation of each, and is no more than their share of what
-- the goal buys.
allocate_tier_bound :
    (p : Pool) (total balance users : ℕ) {remaining allocation : ℕ}
    → allocate_tier p total balance users ≡ ok (remaining, allocation)
    → (0 < total)
      × (0 < p.price)
      × (remaining ≡ allocation * users)
      × (allocation ≡ balance * p.goal_max_collected * precision / p.price / total)
unfolding allocate_tier
allocate_tier_bound p total balance users h = ground arith

-- Two lists multiplied position by position.
abbrev pub times : List ℕ → List ℕ → List ℕ
times [] ys = []
times (x ∷ xs) [] = []
times (x ∷ xs) (y ∷ ys) = (x * y) ∷ times xs ys

-- The allocation of each user of the tiers with these balances.
abbrev pub allocations_of : Pool → ℕ → List ℕ → List ℕ
allocations_of p total_shares [] = []
allocations_of p total_shares (b ∷ bs) =
    (b * p.goal_max_collected * precision / p.price / total_shares)
    ∷ allocations_of p total_shares bs

allocate_tiers-eq :
    (p : Pool) (total : ℕ) (balances users : List ℕ) {remainings allocations : List ℕ}
    → allocate_tiers p total balances users ≡ ok (remainings, allocations)
    → (allocations ≡ allocations_of p total balances) × (remainings ≡ times allocations users)
unfolding allocate_tiers
allocate_tiers-eq p total [] users h = ground arith
allocate_tiers-eq p total (b ∷ bs) [] h = cc
allocate_tiers-eq p total (b ∷ bs) (u ∷ us) h =
    let ((r, a), e, h₁) = >>=-eq-ok (allocate_tier p total b u) _ h in
    let ((rs, rest), e₁, h₂) = >>=-eq-ok (allocate_tiers p total bs us) _ h₁ in
    ground (arith, allocate_tier_bound p total b u e, allocate_tiers-eq p total bs us e₁)

sum_bound :
    (p : Pool) (total : ℕ) (balances users : List ℕ)
    → sum (times (allocations_of p total balances) users) * p.price * total
      ≤ dot balances users * (p.goal_max_collected * precision)
sum_bound p total [] users = omega arith
sum_bound p total (b ∷ bs) [] = omega arith
sum_bound p total (b ∷ bs) (u ∷ us) =
    let ih = sum_bound p total bs us in
    let one = share_bound b u p.goal_max_collected p.price total in omega arith

-- What a successful `set_tier_allocations` stores, and that it changes no other field: each tier's allocation by the formula of its comment, rounded
-- down twice, and what remains for the tier, the allocation times its users.
pub set_tier_allocations-eq :
    (p : Pool) (users balances : List ℕ) {p' : Pool}
    → set_tier_allocations p users balances ≡ ok p'
    → let allocations = allocations_of p (dot balances users) balances in
      p' ≡ record p { tier_allocation = allocations; tier_remaining = times allocations users }
unfolding set_tier_allocations
set_tier_allocations-eq p users balances h =
    let (total, e, h₁) = >>=-eq-ok (add_shares 0 balances users) _ h in
    let ((rs, rest), e₁, h₂) = >>=-eq-ok (allocate_tiers p total balances users) _ h₁ in
    ground (arith, add_shares-eq 0 balances users e, allocate_tiers-eq p total balances users e₁)

no_shares :
    (p : Pool) (balances users : List ℕ) → sum (times (allocations_of p 0 balances) users) ≡ 0
no_shares p [] users = refl
no_shares p (b ∷ bs) [] = refl
no_shares p (b ∷ bs) (u ∷ us) = let ih = no_shares p bs us in grind arith

cancel_shares :
    (p : Pool) (total : ℕ) (balances users : List ℕ)
    → total ≡ dot balances users
    → sum (times (allocations_of p total balances) users) * p.price
      ≤ p.goal_max_collected * precision
cancel_shares p zero balances users e = rw no_shares (omega arith)
cancel_shares p (suc n) balances users e =
    let bound = sum_bound p (suc n) balances users in
    let total_bound = rw (← e) at bound in
    le_of_mul-le _ _ (suc n) (omega arith) (omega (arith, total_bound))

-- Where `set_tier_allocations` succeeds, what then remains for all tiers together is no more than the
-- whole goal buys at the pool's price.
pub set_tier_allocations_never_oversells :
    (p : Pool) (users balances : List ℕ) {p' : Pool}
    → set_tier_allocations p users balances ≡ ok p'
    → sum p'.tier_remaining * p.price ≤ p.goal_max_collected * precision
set_tier_allocations_never_oversells p users balances h =
    rw (set_tier_allocations-eq p users balances h) (cancel_shares p _ balances users refl)
