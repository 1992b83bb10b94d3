-- ===== src/Staking.antt =====
-- The staking program (staking/program): SOS tokens are staked and unstaked over time, and staked
-- tokens are locked to reach a tier.
pub mod Error
pub mod Math
pub mod State
pub mod Program
pub mod Invoke
pub mod Instruction
pub mod Processor
