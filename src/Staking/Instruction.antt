-- ===== src/Staking/Instruction.antt =====
-- staking/program/src/instruction.rs: the instructions of the staking program.
pub mod Build
use solstarter.Staking.Processor.Shared.{
  InitializePoolInput, StakeStartInput, UnstakeStartInput, LockInput, UnlockInput, StartPoolInput,
}

pub data Instruction : Type 0 where
  initialize_pool : InitializePoolInput → Instruction
  stake_start : StakeStartInput → Instruction
  stake_finish : Instruction
  unstake_start : UnstakeStartInput → Instruction
  unstake_finish initialize_lock : Instruction
  lock : LockInput → Instruction
  unlock : UnlockInput → Instruction
  start_pool : StartPoolInput → Instruction
