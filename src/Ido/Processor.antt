-- ===== src/Ido/Processor.antt =====
-- ido/program/src/processor.rs: the handlers of the IDO program, one module each, and their dispatch.
pub mod Shared
pub mod Initialize
pub mod Participate
pub mod Settle
pub mod Kyc
pub mod Start
pub mod Dispatch
