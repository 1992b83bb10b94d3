-- ===== src/Staking/Processor.antt =====
-- staking/program/src/processor.rs: the handlers of the staking program.
pub mod Shared
pub mod Initialize
pub mod Stake
pub mod Unstake
pub mod Lock
pub mod Start
pub mod Transit
pub mod Dispatch
