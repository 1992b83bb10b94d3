-- ===== src/Staking/State/Tier.antt =====
-- `get_tier` of staking/program/src/state.rs finds the last tier that an amount reaches.
use solstarter.Common.{
  ℕ, zero, suc, ◌+◌, ◌≤◌, ◌<◌, ◌≡◌, inl, inr, Option, none, some, List, [], ◌∷◌, leb,
  enumerate_from, rfind, length, arith, Bool-cases, Option-cases, leb→le, if◌then◌else◌,
}
use solstarter.Staking.State.{get_tier}
use mathlib.Core.Option

abbrev tier_from : ℕ → List ℕ → ℕ → Option (ℕ × ℕ)
tier_from i balances amount = rfind (λ (p : ℕ × ℕ). leb p.1 amount) (enumerate_from i balances)

-- No tier from the `i`-th on is reached by `amount`.
abbrev pub NoneReached : List ℕ → ℕ → Type 0
NoneReached [] amount = Unit
NoneReached (b ∷ bs) amount = (amount < b) × NoneReached bs amount

-- Tier `i` is reached by `amount`, and no later one is.
abbrev pub IsLastReached : List ℕ → ℕ → ℕ → Type 0
IsLastReached [] amount i = ⊥
IsLastReached (b ∷ bs) amount zero = (b ≤ amount) × NoneReached bs amount
IsLastReached (b ∷ bs) amount (suc i) = IsLastReached bs amount i

-- What an answer of `get_tier` says.
abbrev pub Answers : List ℕ → ℕ → Option ℕ → Type 0
Answers bs amount none = NoneReached bs amount
Answers bs amount (some i) = IsLastReached bs amount i

abbrev Found : ℕ → List ℕ → ℕ → Option (ℕ × ℕ) → Type 0
Found i bs amount none = NoneReached bs amount
Found i bs amount (some p) = (j : ℕ) × (p.0 ≡ i + j) × IsLastReached bs amount j

Found-step :
    (i b : ℕ) (bs : List ℕ) (amount : ℕ) (r : Option (ℕ × ℕ))
    → Found (suc i) bs amount r
    → Found i
        (b ∷ bs)
        amount
        (elim r [ some y ↦ some y | none ↦ if leb b amount then some (i, b) else none ])
Found-step i b bs amount (some p) (j, e, h) = (suc j, omega arith, h)
Found-step i b bs amount none h = elim (Bool-cases (leb b amount)) [
  | inl reached ↦ rw reached (0, omega arith, (leb→le b amount reached, h))
  | inr below ↦ rw below (ground arith, h)
]

tier_from-Found : (i : ℕ) (bs : List ℕ) (amount : ℕ) → Found i bs amount (tier_from i bs amount)
tier_from-Found i [] amount = tt
tier_from-Found i (b ∷ bs) amount =
    Found-step i b bs amount (tier_from (suc i) bs amount) (tier_from-Found (suc i) bs amount)

Found-Answers :
    (bs : List ℕ) (amount : ℕ) (r : Option (ℕ × ℕ))
    → Found 0 bs amount r
    → Answers bs amount (Option.map (λ p. p.0) r)
Found-Answers bs amount none h = h
Found-Answers bs amount (some p) (j, e, h) = let same : p.0 ≡ j = omega arith in rw same h

-- `get_tier` answers with the last tier whose balance the amount reaches, and with none exactly
-- where it reaches no tier; the balances need not ascend.
pub get_tier-Answers : (bs : List ℕ) (amount : ℕ) → Answers bs amount (get_tier bs amount)
unfolding get_tier
get_tier-Answers bs amount =
    Found-Answers bs amount (tier_from 0 bs amount) (tier_from-Found 0 bs amount)

NoneReached-anti : (bs : List ℕ) (x y : ℕ) → x ≤ y → NoneReached bs y → NoneReached bs x
NoneReached-anti [] x y le h = tt
NoneReached-anti (b ∷ bs) x y le h = (omega arith, NoneReached-anti bs x y le h.1)

pub IsLastReached-not-NoneReached :
    (bs : List ℕ) (x i : ℕ) → IsLastReached bs x i → NoneReached bs x → ⊥
IsLastReached-not-NoneReached [] x i h n = h
IsLastReached-not-NoneReached (b ∷ bs) x zero h n = omega arith
IsLastReached-not-NoneReached (b ∷ bs) x (suc i) h n = IsLastReached-not-NoneReached bs x i h n.1

-- Two last reached tiers are ordered as the amounts are.
pub IsLastReached-mono :
    (bs : List ℕ) (x y i j : ℕ) → x ≤ y → IsLastReached bs x i → IsLastReached bs y j → i ≤ j
IsLastReached-mono [] x y i j le h k = absurd h
IsLastReached-mono (b ∷ bs) x y zero j le h k = omega arith
IsLastReached-mono (b ∷ bs) x y (suc i) zero le h k =
    absurd (IsLastReached-not-NoneReached bs x i h (NoneReached-anti bs x y le k.1))
IsLastReached-mono (b ∷ bs) x y (suc i) (suc j) le h k =
    let ih = IsLastReached-mono bs x y i j le h k in omega arith

pub IsLastReached-lt-length : (bs : List ℕ) (x i : ℕ) → IsLastReached bs x i → i < length bs
IsLastReached-lt-length [] x i h = absurd h
IsLastReached-lt-length (b ∷ bs) x zero h = omega arith
IsLastReached-lt-length (b ∷ bs) x (suc i) h =
    let ih = IsLastReached-lt-length bs x i h in omega arith

pub get_tier-IsLastReached : (bs : List ℕ) (x i : ℕ) → get_tier bs x ≡ some i → IsLastReached bs x i
get_tier-IsLastReached bs x i h = rw h at (get_tier-Answers bs x)

-- A larger amount keeps or raises the tier, and never loses it.
pub get_tier_mono :
    (bs : List ℕ) (x y i : ℕ)
    → x ≤ y
    → get_tier bs x ≡ some i
    → (j : ℕ) × (get_tier bs y ≡ some j) × (i ≤ j)
get_tier_mono bs x y i le h = elim (Option-cases (get_tier bs y)) [
  | inl lost ↦ absurd (
      IsLastReached-not-NoneReached bs x i (get_tier-IsLastReached bs x i h)
        (NoneReached-anti bs x y le (rw lost at (get_tier-Answers bs y))))
  | inr (j, e) ↦ (
    j,
    e,
    IsLastReached-mono bs x y i j le (get_tier-IsLastReached bs x i h)
        (get_tier-IsLastReached bs y j e),
  )
]
