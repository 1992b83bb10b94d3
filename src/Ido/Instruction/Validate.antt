-- ===== src/Ido/Instruction/Validate.antt =====
-- `InitializePool::validate` of ido/program/src/instruction.rs.
use solstarter.Common.{
  ℕ, ◌≤◌, ◌<◌, ◌%◌, ◌^◌, ℤ, pos_part, ◌-ℤ◌, ◌≤ℤ◌, IsI64, ◌≡◌, ◌↔◌, List, [], ◌∷◌, sum,
  wrapping_sub_i64-eq, pos_part_sub, neg_part_sub, arith,
}
use solstarter.Solana.{Clock, ok}
use solstarter.Ido.Instruction.{InitializePool, validate, sum_u32}

-- The terms of a sale that make sense at a time `now`.
pub record IsSound (input : InitializePool) (now : ℤ) : Type 0 where
  pub goal_min_pos : 0 < input.goal_min
  pub goals_ordered : input.goal_min ≤ input.goal_max
  pub amount_min_pos : 0 < input.amount_min
  pub amounts_ordered : input.amount_min ≤ input.amount_max
  pub starts_later : now ≤ℤ input.time_start
  pub times_ordered : input.time_start ≤ℤ input.time_finish
  pub table_fits : sum input.time_table ≤ pos_part (input.time_finish -ℤ input.time_start)

sum_u32-eq : (xs : List ℕ) → sum xs < 2 ^ 32 → sum_u32 xs ≡ sum xs
sum_u32-eq [] h = omega arith
sum_u32-eq (x ∷ xs) h = let ih = sum_u32-eq xs (omega arith) in omega arith

-- Where the time table does not overflow a `u32` and the sale's length fits an `i64`, `validate`
-- accepts exactly the sound terms.
pub validate_iff :
    (input : InitializePool) (clock : Clock)
    → sum input.time_table < 2 ^ 32
    → IsI64 (input.time_finish -ℤ input.time_start)
    → (validate input clock ≡ ok tt) ↔ IsSound input clock.unix_timestamp
unfolding validate
validate_iff input clock small fits =
    let table = sum_u32-eq input.time_table small in
    let length = wrapping_sub_i64-eq input.time_finish input.time_start fits in
    let p = pos_part_sub input.time_finish input.time_start in
    let n = neg_part_sub input.time_finish input.time_start in
    ((λ h. ground arith), (λ h. ground arith))

sum_u32-mod : (xs : List ℕ) → sum_u32 xs ≡ sum xs % 2 ^ 32
sum_u32-mod [] = omega arith
sum_u32-mod (x ∷ xs) = let ih = sum_u32-mod xs in omega arith

-- Where the sale's length fits an `i64`, the sum of a time table wraps around at 2 ^ 32: whatever its entries come to, a table whose sum
-- leaves a remainder within that length is accepted with any terms that are accepted with another table.
pub validate_wraps_table :
    (input : InitializePool) (clock : Clock) (table : List ℕ)
    → IsI64 (input.time_finish -ℤ input.time_start)
    → validate input clock ≡ ok tt
    → sum table % 2 ^ 32 ≤ pos_part (input.time_finish -ℤ input.time_start)
    → validate (record input { time_table = table }) clock ≡ ok tt
unfolding validate
validate_wraps_table input clock table fits valid small = ground (
  arith,
  sum_u32-mod table,
  wrapping_sub_i64-eq input.time_finish input.time_start fits,
  pos_part_sub input.time_finish input.time_start,
  neg_part_sub input.time_finish input.time_start,
)
