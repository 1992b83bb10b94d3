-- ===== src/Ido/Processor/Participate/History.antt =====
-- Sales of ido/program/src/processor.rs as sequences of investments and starts: the money and the tokens
-- that a pool counts, and what the claims of its participants come to.
use solstarter.Common.{
  ℕ, ◌+◌, ◌*◌, ◌^◌, ◌≤◌, ◌<◌, ◌≡◌, refl, ap, ◌∙◌, Option, List, [], ◌∷◌, sum, length, le_of_mul-le,
  arith,
}
use solstarter.Solana.{ok}
use solstarter.Ido.State.{Pool, Stage}
use solstarter.Ido.State.Sale.{precision, collected_to_distributed, set_tier_allocations}
use solstarter.Ido.State.Price.{collected_to_distributed_rounds_down}
use solstarter.Ido.State.Allocations.{set_tier_allocations-eq}
use solstarter.Ido.Processor.Participate.{check_amount, invest}
use solstarter.Ido.Processor.Participate.Invest.{invest-Invests, Invests-le-goal}

-- The pools that `p` can become, with the amounts invested since: an investment takes some of an amount
-- offered that has passed the checks, and a start sets the allocations.
pub data Sale (p : Pool) : Pool → List ℕ → Type 0 where
  opens : Sale p p []
  invests :
      {q q' : Pool} {amounts : List ℕ} (offered amount : ℕ) (tier : Option ℕ) (stage : Stage)
      → Sale p q amounts
      → check_amount q offered ≡ ok tt
      → amount ≤ offered
      → invest q amount tier stage ≡ ok q'
      → Sale p q' (amount ∷ amounts)
  starts :
      {q q' : Pool} {amounts : List ℕ} (users balances : List ℕ)
      → Sale p q amounts
      → set_tier_allocations q users balances ≡ ok q'
      → Sale p q' amounts

-- The books of a sale.
pub record IsKept (p q : Pool) (amounts : List ℕ) : Type 0 where
  pub price : q.price ≡ p.price
  pub goal : q.goal_max_collected ≡ p.goal_max_collected
  pub most : q.amount_investment_max ≡ p.amount_investment_max
  pub collected : q.amount_collected ≡ sum amounts
  pub within : q.amount_collected ≤ p.goal_max_collected
  pub below : q.amount_to_distribute * p.price ≤ sum amounts * precision
  pub above : sum amounts * precision ≤ (q.amount_to_distribute + length amounts) * p.price

check_amount-le :
    (q : Pool) (offered : ℕ) → check_amount q offered ≡ ok tt → offered ≤ q.amount_investment_max
unfolding check_amount
check_amount-le q offered h = ground arith

-- Claims of amounts of pool tokens, with what each is paid.
abbrev pub Claims : Pool → List ℕ → List ℕ → Type 0
Claims q [] [] = Unit
Claims q (y ∷ ys) (d ∷ ds) = (collected_to_distributed q y ≡ ok d) × Claims q ys ds
Claims q _ _ = ⊥

Claims-le : (q : Pool) (ys ds : List ℕ) → Claims q ys ds → sum ds * q.price ≤ sum ys * precision
Claims-le q [] [] h = omega arith
Claims-le q (y ∷ ys) (d ∷ ds) (paid, h) =
    let ih = Claims-le q ys ds h in
    let (_, low, _, _) = collected_to_distributed_rounds_down q y paid in omega arith
Claims-le q [] (d ∷ ds) h = absurd h
Claims-le q (y ∷ ys) [] h = absurd h

module _ (p : Pool) (none_collected : p.amount_collected ≡ 0)
    (none_sold : p.amount_to_distribute ≡ 0)
    (room : p.goal_max_collected + p.amount_investment_max < 2 ^ 64) where
  invest-IsKept :
      (q q' : Pool) (amounts : List ℕ) (offered amount : ℕ) (tier : Option ℕ) (stage : Stage)
      → IsKept p q amounts
      → check_amount q offered ≡ ok tt
      → amount ≤ offered
      → invest q amount tier stage ≡ ok q'
      → IsKept p q' (amount ∷ amounts)
  invest-IsKept q q' amounts offered amount tier stage kept checked less done =
      let (d, i) = invest-Invests q amount tier stage done in
      let (_, low, high, _) = collected_to_distributed_rounds_down q amount i.bought in
      let small : q.amount_collected + offered < 2 ^ 64 =
        omega (arith, check_amount-le q offered checked, kept.most, kept.within) in
      let bounded = Invests-le-goal q q' offered amount tier stage d small checked less i in
      let same_c : q'.amount_collected ≡ q.amount_collected + amount =
        ap (λ x. x.amount_collected) i.others in
      let same_d : q'.amount_to_distribute ≡ q.amount_to_distribute + d =
        ap (λ x. x.amount_to_distribute) i.others in
      let low_p : d * p.price ≤ amount * precision = rw (← kept.price) low in
      let high_p : amount * precision < (d + 1) * p.price = rw (← kept.price) high in
      record {
        price = ap (λ x. x.price) i.others ∙ kept.price;
        goal = ap (λ x. x.goal_max_collected) i.others ∙ kept.goal;
        most = ap (λ x. x.amount_investment_max) i.others ∙ kept.most;
        collected = omega (arith, kept.collected);
        within = omega (arith, kept.goal);
        below = rw same_d omega (arith, kept.below);
        above = rw same_d omega (arith, kept.above);
      }

  start-IsKept :
      (q q' : Pool) (amounts users balances : List ℕ)
      → IsKept p q amounts
      → set_tier_allocations q users balances ≡ ok q'
      → IsKept p q' amounts
  start-IsKept q q' amounts users balances kept done =
      let e = set_tier_allocations-eq q users balances done in
      let same_c : q'.amount_collected ≡ q.amount_collected = ap (λ x. x.amount_collected) e in
      let same_d : q'.amount_to_distribute ≡ q.amount_to_distribute =
        ap (λ x. x.amount_to_distribute) e in
      record {
        price = ap (λ x. x.price) e ∙ kept.price;
        goal = ap (λ x. x.goal_max_collected) e ∙ kept.goal;
        most = ap (λ x. x.amount_investment_max) e ∙ kept.most;
        collected = same_c ∙ kept.collected;
        within = rw same_c kept.within;
        below = rw same_d kept.below;
        above = rw same_d kept.above;
      }

  Sale-IsKept : {q : Pool} {amounts : List ℕ} → Sale p q amounts → IsKept p q amounts
  Sale-IsKept opens = record {
    price = refl;
    goal = refl;
    most = refl;
    collected = none_collected;
    within = rw none_collected omega arith;
    below = rw none_sold omega arith;
    above = rw none_sold omega arith;
  }
  Sale-IsKept (invests {q} {q'} {amounts} offered amount tier stage h checked less done) =
      invest-IsKept q q' amounts offered amount tier stage (Sale-IsKept h) checked less done
  Sale-IsKept (starts {q} {q'} {amounts} users balances h done) =
      start-IsKept q q' amounts users balances (Sale-IsKept h) done

  -- Where a pool begins with nothing collected and nothing to distribute, and its goal and largest
  -- investment together fit a `u64`: after any investments and starts in any order, the amount collected
  -- is the sum of the amounts invested and within the goal, and the tokens to distribute are what that
  -- money buys, short of it by at most one token for each investment.
  pub books_balance :
      {q : Pool} {amounts : List ℕ}
      → Sale p q amounts
      → (q.amount_collected ≡ sum amounts)
        × (q.amount_collected ≤ q.goal_max_collected)
        × (q.amount_to_distribute * q.price ≤ q.amount_collected * precision)
        × (q.amount_collected * precision ≤ (q.amount_to_distribute + length amounts) * q.price)
  books_balance h =
      let kept = Sale-IsKept h in
      (
        kept.collected,
        rw kept.goal kept.within,
        rw (kept.price, kept.collected) kept.below,
        rw (kept.price, kept.collected) kept.above,
      )

  -- Where a pool begins with nothing collected and nothing to distribute, and its goal and largest
  -- investment together fit a `u64`: after any investments and starts in any order at a positive price,
  -- claims of pool tokens that come to no more than the amount collected, however the tokens are grouped
  -- in accounts, are paid no more than the tokens to distribute and one token for each investment.
  pub payments_covered :
      {q : Pool} {amounts : List ℕ} (ys ds : List ℕ)
      → 0 < q.price
      → Sale p q amounts
      → sum ys ≤ q.amount_collected
      → Claims q ys ds
      → sum ds ≤ q.amount_to_distribute + length amounts
  payments_covered {q} {amounts} ys ds positive h within claims =
      let (_, _, _, above) = books_balance h in
      let paid = Claims-le q ys ds claims in
      let scaled : sum ys * precision ≤ q.amount_collected * precision = omega arith in
      le_of_mul-le (sum ds) (q.amount_to_distribute + length amounts) q.price positive (omega arith)
