-- ===== src/Ido/State/Price.antt =====
-- `collected_to_distributed` and `update_distributed_from_collected` of ido/program/src/state.rs.
use solstarter.Common.{
  ℕ, zero, suc, ◌-◌, ◌+◌, ◌*◌, ◌/◌, ◌^◌, ◌≤◌, ◌<◌, ◌≡◌, Option, none, some, IsWord, ltb, set,
  lt_of_mul-lt, if◌then◌else◌, arith,
}
use solstarter.Solana.{ok, err, >>=-eq-ok, index}
use solstarter.Ido.Error.{overflow, division_by_zero, into}
use solstarter.Ido.State.{Pool, Stage, initial_stage, tier_allocation_stage, final_stage}
use solstarter.Ido.Math.{error_sub}
use solstarter.Ido.State.Sale.{
  precision, collected_to_distributed, take_from_tier, update_distributed_from_collected,
}

scale_fits : (c : ℕ) → c < 2 ^ 64 → c * 1_000_000_000 < 2 ^ 128
scale_fits c h = omega arith

-- A `u64` amount buys the amount times 10 ^ 9 over the price, rounded down; it fails only where the
-- price is zero or the result does not fit a `u64`, and never because a product is too large.
pub collected_to_distributed-eq :
    (p : Pool) (c : ℕ)
    → IsWord 64 c
    → collected_to_distributed p c ≡ elim p.price [
      | zero ↦ err (into division_by_zero)
      | suc k ↦
          if ltb (c * precision / suc k) (2 ^ 64)
          then ok (c * precision / suc k)
          else err (into overflow)
    ]
unfolding collected_to_distributed
collected_to_distributed-eq p c h = ground (arith)

-- Where an amount is converted at all, the price is not zero, and the tokens distributed for it are
-- those that its money buys, rounded down, and fit a `u64`.
pub collected_to_distributed_rounds_down :
    (p : Pool) (c : ℕ) {d : ℕ}
    → collected_to_distributed p c ≡ ok d
    → (0 < p.price)
      × (d * p.price ≤ c * precision)
      × (c * precision < (d + 1) * p.price)
      × IsWord 64 d
unfolding collected_to_distributed
collected_to_distributed_rounds_down p c h = grind arith

floor_add :
    (q x y z : ℕ) {m n k : ℕ}
    → x * q ≤ m
    → m < (x + 1) * q
    → y * q ≤ n
    → n < (y + 1) * q
    → z * q ≤ k
    → k < (z + 1) * q
    → k ≡ m + n
    → (x + y ≤ z) × (z ≤ x + y + 1)
floor_add q x y z lm um ln un lk uk e =
    let below : x + y < z + 1 = lt_of_mul-lt (x + y) (z + 1) q (omega arith) in
    let above : z < x + y + 2 = lt_of_mul-lt z (x + y + 2) q (omega arith) in
    (omega arith, omega arith)

-- Where two amounts and their sum are converted, the sum buys what they buy alone, or one token more.
pub collected_to_distributed-add :
    (p : Pool) (a b : ℕ) {x y z : ℕ}
    → collected_to_distributed p a ≡ ok x
    → collected_to_distributed p b ≡ ok y
    → collected_to_distributed p (a + b) ≡ ok z
    → (x + y ≤ z) × (z ≤ x + y + 1)
collected_to_distributed-add p a b {x} {y} {z} ha hb hc =
    let (q, la, ua, wa) = collected_to_distributed_rounds_down p a ha in
    let (q', lb, ub, wb) = collected_to_distributed_rounds_down p b hb in
    let (q'', lc, uc, wc) = collected_to_distributed_rounds_down p (a + b) hc in
    floor_add p.price x y z la ua lb ub lc uc (omega arith)

-- What a purchase of `d` tokens leaves of the tiers' remaining tokens: those of its tier less `d`, where it
-- is charged to one, and the same otherwise.
abbrev pub Charged : Pool → Pool → ℕ → Option ℕ → Stage → Type 0
Charged p p' d tier final_stage = p'.tier_remaining ≡ p.tier_remaining
Charged p p' d none stage = p'.tier_remaining ≡ p.tier_remaining
Charged p p' d (some tier) stage =
    (old : ℕ) × (index p.tier_remaining tier ≡ ok old)
    × (d ≤ old)
    × (p'.tier_remaining ≡ set p.tier_remaining tier (old - d))

error_sub-ok : (a b : ℕ) {c : ℕ} → error_sub a b ≡ ok c → (b ≤ a) × (c ≡ a - b)
unfolding error_sub
error_sub-ok a b h = ground arith

take_from_tier-Charged :
    (p : Pool) (d : ℕ) (tier : Option ℕ) (stage : Stage) {p' : Pool}
    → take_from_tier p d tier stage ≡ ok p'
    → Charged p p' d tier stage × (p' ≡ record p { tier_remaining = p'.tier_remaining })
unfolding take_from_tier
take_from_tier-Charged p d tier final_stage h = ground arith
take_from_tier-Charged p d none initial_stage h = ground arith
take_from_tier-Charged p d none tier_allocation_stage h = ground arith
take_from_tier-Charged p d (some tier) initial_stage {p'} h =
    let (old, found, h₁) = >>=-eq-ok (index p.tier_remaining tier) _ h in
    let (left, less, h₂) = >>=-eq-ok (error_sub old d) _ h₁ in
    let (le, e) = error_sub-ok old d less in ((old, found, le, ground arith), ground arith)
take_from_tier-Charged p d (some tier) tier_allocation_stage {p'} h =
    let (old, found, h₁) = >>=-eq-ok (index p.tier_remaining tier) _ h in
    let (left, less, h₂) = >>=-eq-ok (error_sub old d) _ h₁ in
    let (le, e) = error_sub-ok old d less in ((old, found, le, ground arith), ground arith)

Charged-congr :
    (p q r : Pool) (d : ℕ) (tier : Option ℕ) (stage : Stage)
    → q.tier_remaining ≡ r.tier_remaining
    → Charged p q d tier stage
    → Charged p r d tier stage
Charged-congr p q r d tier final_stage e h = cc
Charged-congr p q r d none initial_stage e h = cc
Charged-congr p q r d none tier_allocation_stage e h = cc
Charged-congr p q r d (some tier) initial_stage e h = rw (← e) h
Charged-congr p q r d (some tier) tier_allocation_stage e h = rw (← e) h

-- An update adds what the amount buys to the tokens to distribute and takes it from what remains
-- for the tier, if it is charged to one; no other field of the pool changes.
pub update_distributed_from_collected-Charged :
    (p : Pool) (amount : ℕ) (tier : Option ℕ) (stage : Stage) {p' : Pool}
    → update_distributed_from_collected p amount tier stage ≡ ok p'
    → (d : ℕ) × (collected_to_distributed p amount ≡ ok d)
      × Charged p p' d tier stage
      × (p' ≡ record p {
        tier_remaining = p'.tier_remaining;
        amount_to_distribute = p.amount_to_distribute + d;
      })
unfolding update_distributed_from_collected
update_distributed_from_collected-Charged p amount tier stage {p'} h =
    let (d, e, h₁) = >>=-eq-ok (collected_to_distributed p amount) _ h in
    let (q, e₁, h₂) = >>=-eq-ok (take_from_tier p d tier stage) _ h₁ in
    let (charged, rest) = take_from_tier-Charged p d tier stage e₁ in
    (d, e, Charged-congr p q p' d tier stage (ground arith) charged, ground arith)
