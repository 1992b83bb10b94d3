-- ===== src/Ido/Instruction.antt =====
-- ido/program/src/instruction.rs: the inputs of the instructions, and the check of a new pool's.
pub mod Validate
pub mod Build
use solstarter.Common.{
  ℕ, ℤ, pos, List, [], ◌∷◌, ltb, ltb_ℤ, wrapping_add, wrapping_sub_i64, ◌==◌, ◌||◌,
}
use solstarter.Solana.{Pubkey, Clock, Result, ok, fail_if, ◌>>=◌, ◌>>◌}
use solstarter.Ido.Error.{invalid_goal_numbers, invalid_pool_time_frame, invalid_time_table, into}
use solstarter.Ido.State.{KycRequirement}

pub record InitializePool : Type 0 where
  pub pool_owner : Pubkey
  pub price : ℕ
  pub goal_max : ℕ
  pub goal_min : ℕ
  pub amount_min : ℕ
  pub amount_max : ℕ
  pub time_start : ℤ
  pub time_finish : ℤ
  pub kyc_requirement : KycRequirement
  pub time_table : List ℕ

pub record Participate : Type 0 where
  pub amount : ℕ

pub record InitializeMarket : Type 0 where
  pub stake_pool : Pubkey

pub record CreateMarketUserKyc : Type 0 where
  pub expiration : ℤ

pub data Instruction : Type 0 where
  initialize_market : InitializeMarket → Instruction
  initialize_pool : InitializePool → Instruction
  participate : Participate → Instruction
  claim add_to_whitelist withdraw : Instruction
  create_market_user_kyc : CreateMarketUserKyc → Instruction
  delete_market_user_kyc start_pool : Instruction

-- `iter().sum::<u32>()` in a build with no overflow checks.
abbrev pub sum_u32 : List ℕ → ℕ
sum_u32 [] = 0
sum_u32 (x ∷ xs) = wrapping_add 32 x (sum_u32 xs)

unfoldable pub validate : InitializePool → Clock → Result (Unit {0})
validate input clock = do
  fail_if (input.goal_min == 0 || input.goal_max == 0 || ltb input.goal_max input.goal_min)
      (into invalid_goal_numbers)
  fail_if (input.amount_min == 0 || input.amount_max == 0 || ltb input.amount_max input.amount_min)
      (into invalid_goal_numbers)
  fail_if
      (ltb_ℤ input.time_start clock.unix_timestamp
        || ltb_ℤ input.time_finish clock.unix_timestamp
        || ltb_ℤ input.time_finish input.time_start)
      (into invalid_pool_time_frame)
  fail_if
      (ltb_ℤ (wrapping_sub_i64 input.time_finish input.time_start) (pos (sum_u32 input.time_table)))
      (into invalid_time_table)
  ok tt
