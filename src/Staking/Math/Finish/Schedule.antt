-- ===== src/Staking/Math/Finish/Schedule.antt =====
-- Claims from one transit at several instants: claimed and remaining amounts after each, as the
-- processor's `finish` records them and the token transfer moves them.
use solstarter.Common.{ℕ, ◌+◌, ◌-◌, ℤ, ◌≡◌, Option, none, some, max, IsWord, List, [], ◌∷◌, arith}
use solstarter.Staking.Math.{finish}
use solstarter.Staking.Math.Finish.{vested, TimesFit, finish-eq-vested, finish_bounds}

-- The claimed and the remaining amount of a transit.
pub record Amounts : Type 0 where
  pub claimed : ℕ
  pub remaining : ℕ

abbrev pub pay : Amounts → Option ℕ → Amounts
pay s none = s
pay s (some a) = record { claimed = s.claimed + a; remaining = s.remaining - a }

module _ (transit_from transit_until : ℤ) where
  pub claim_at : ℤ → Amounts → Amounts
  claim_at now s = pay s (finish transit_from now transit_until s.claimed s.remaining)

  pub claim_all : List ℤ → Amounts → Amounts
  claim_all [] s = s
  claim_all (now ∷ times) s = claim_all times (claim_at now s)

  -- The largest share that one of the instants frees, or what was claimed before.
  abbrev pub largest_share : ℕ → List ℤ → ℕ → ℕ
  largest_share total [] c = c
  largest_share total (now ∷ times) c =
      largest_share total times (max c (vested transit_from transit_until now total))

  abbrev pub AllFit : List ℤ → Type 0
  AllFit [] = Unit
  AllFit (now ∷ times) = TimesFit transit_from now transit_until × AllFit times

  claim_at-step :
      (now : ℤ) (s : Amounts)
      → TimesFit transit_from now transit_until
      → IsWord 64 (s.claimed + s.remaining)
      → ((claim_at now s).claimed + (claim_at now s).remaining ≡ s.claimed + s.remaining)
        × ((claim_at now s).claimed
            ≡ max s.claimed (vested transit_from transit_until now (s.claimed + s.remaining)))
  unfolding claim_at
  claim_at-step now s t h = grind (
    arith,
    finish-eq-vested transit_from now transit_until s.claimed s.remaining t (omega arith)
        (omega arith),
    finish_bounds transit_from now transit_until s.claimed s.remaining,
  )

  -- Where the differences of times fit an `i64` and claimed and remaining amount together a `u64`,
  -- whatever the instants and their order, claims conserve the sum of claimed and remaining amount,
  -- and leave claimed exactly the largest share that one of the instants frees (or what was claimed
  -- before, if that is more): splitting a claim into several gains and loses nothing.
  pub claim_all-eq-largest_share :
      (times : List ℤ) (s : Amounts)
      → AllFit times
      → IsWord 64 (s.claimed + s.remaining)
      → ((claim_all times s).claimed + (claim_all times s).remaining ≡ s.claimed + s.remaining)
        × ((claim_all times s).claimed ≡ largest_share (s.claimed + s.remaining) times s.claimed)
  unfolding claim_all
  claim_all-eq-largest_share [] s t h = omega arith
  claim_all-eq-largest_share (now ∷ times) s t h =
      let step = claim_at-step now s t.0 h in
      grind (arith, step, claim_all-eq-largest_share times (claim_at now s) t.1 (omega arith))
