-- ===== src/Common/Products.antt =====
-- Orders of products.
use Prim.Native.Nat.{ℕ, ◌+◌, ◌*◌, ◌≤◌, ◌<◌}
use native.Mathlib.Omega.{arith}
use native.Mathlib.Decide.{dec_lt, dec_le}

pub mul_mono : (a b c : ℕ) → a ≤ b → a * c ≤ b * c
mul_mono a b c h = grind arith

pub lt_of_mul-lt : (a b q : ℕ) → a * q < b * q → a < b
lt_of_mul-lt a b q h = elim (dec_lt a b) [
  | yes lt ↦ lt
  | no ge ↦ absurd (let m : b * q ≤ a * q = mul_mono b a q (omega arith) in omega arith)
]

pub le_of_mul-le : (a b q : ℕ) → 0 < q → a * q ≤ b * q → a ≤ b
le_of_mul-le a b q p h = elim (dec_le a b) [
  | yes le ↦ le
  | no gt ↦ absurd (let m : (b + 1) * q ≤ a * q = mul_mono (b + 1) a q (omega arith) in omega arith)
]
