-- ===== src/Staking/Math/Finish.antt =====
-- What `finish` of staking/program/src/utils/math.rs computes.
pub mod Schedule
use native.Mathlib.Nat.{mul-div_cancel}
use solstarter.Common.{
  ℕ, ◌+◌, ◌-◌, ◌*◌, ◌/◌, ◌^◌, ◌≤◌, ◌<◌, ℤ, ◌≡◌, Option, none, some, min, pos_part, neg_part, ltb,
  ◌-ℤ◌, ◌<ℤ◌, ◌≤ℤ◌, IsI64, IsWord, pos_part_sub, if◌then◌else◌, arith,
}
use solstarter.Staking.Math.{finish}

-- The share of `total` that the time passed between two instants has freed.
abbrev pub vested : ℤ → ℤ → ℤ → ℕ → ℕ
vested transit_from transit_until now total =
    let interval = pos_part (transit_until -ℤ transit_from) in
    total * min interval (pos_part (now -ℤ transit_from)) / interval

share-le : (total t i : ℕ) → t ≤ i → 0 < i → total * t / i ≤ total
share-le total t i h p = grind arith

mul_bound : (a b : ℕ) → a < 2 ^ 65 → b < 2 ^ 63 → a * b < 2 ^ 128
mul_bound a b h k = grind arith

-- The differences of times that the code takes are representable.
pub record TimesFit (transit_from now transit_until : ℤ) : Type 0 where
  pub interval_fits : IsI64 (transit_until -ℤ transit_from)
  pub passed_fits : IsI64 (now -ℤ transit_from)

module _ (transit_from now transit_until : ℤ) (amount_claimed remaining_amount : ℕ) where
  -- Where the differences of times fit an `i64` and the amounts a `u64`, `finish` gives what the time
  -- passed has freed of claimed and remaining amount together, less what was claimed before, and
  -- `none` where that is nothing: no step of the 128-bit arithmetic overflows.
  pub finish-eq-vested :
      TimesFit transit_from now transit_until
      → IsWord 64 amount_claimed
      → IsWord 64 remaining_amount
      → let v = vested transit_from transit_until now (amount_claimed + remaining_amount) in
        finish transit_from now transit_until amount_claimed remaining_amount
        ≡ (if ltb amount_claimed v then some (v - amount_claimed) else none)
  unfolding finish
  finish-eq-vested t hc hr = grind (arith, mul_bound, share-le)

  -- A claim is positive, is at most what remains, and brings the claimed amount to exactly what the time
  -- passed has freed.
  pub finish_bounds :
      {a : ℕ}
      → finish transit_from now transit_until amount_claimed remaining_amount ≡ some a
      → (0 < a)
        × (a ≤ remaining_amount)
        × (amount_claimed + a
            ≡ vested transit_from transit_until now (amount_claimed + remaining_amount))
  unfolding finish
  finish_bounds h = grind (arith, share-le)

  -- Where the differences of times fit an `i64` and the amounts a `u64`, from the end of a nonempty
  -- transit period on all that remains, if anything, can be claimed.
  pub finish_after_end :
      TimesFit transit_from now transit_until
      → IsWord 64 amount_claimed
      → IsWord 64 remaining_amount
      → transit_from <ℤ transit_until
      → transit_until ≤ℤ now
      → 0 < remaining_amount
      → finish transit_from now transit_until amount_claimed remaining_amount
        ≡ some remaining_amount
  finish_after_end t hc hr ne late p = grind (
    arith,
    finish-eq-vested t hc hr,
    pos_part_sub transit_until transit_from,
    pos_part_sub now transit_from,
    mul-div_cancel (amount_claimed + remaining_amount)
        {n = pos_part (transit_until -ℤ transit_from)},
  )

  -- Nothing can ever be claimed from a transit with an empty period.
  pub finish_empty_period :
      transit_until ≤ℤ transit_from
      → finish transit_from now transit_until amount_claimed remaining_amount ≡ none
  unfolding finish
  finish_empty_period h = grind (arith, pos_part_sub transit_until transit_from)
