-- ===== src/Tests.antt =====
-- Runs of the programs on concrete inputs, and instances of the theorems, over a small runtime that
-- meets the hypotheses.
pub mod Platform
pub mod Codec
pub mod Encoding
pub mod Dispatch
mod Freezes
mod Histories
mod Openings
mod NewLocks
mod Staking
pub mod StakeStore
mod Locks
mod Transits
mod Kyc
mod Start
mod Sale
mod Sales
pub mod SaleStore
mod Settling
mod Participation
