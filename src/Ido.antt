-- ===== src/Ido.antt =====
-- The IDO program (ido/program): markets hold pools, in which a token is sold for another in
-- stages to the tiers of a stake pool.
pub mod Error
pub mod Math
pub mod State
pub mod Instruction
pub mod Invoke
pub mod Processor
