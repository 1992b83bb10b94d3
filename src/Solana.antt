-- ===== src/Solana.antt =====
-- What the two programs use of `solana_program`, `spl_token` and `borsh`: results and errors,
-- accounts, and an interface to the code of those packages, which no definition here fills in.
mod Outcome
mod Store
mod Outside
mod Patterns
mod Laws
mod Kept
mod Checked
mod Instruction
pub use Outcome.*
pub use Store.*
pub use Outside.*
pub use Patterns.*
pub use Laws.*
pub use Kept.*
pub use Checked.*
pub use Instruction.*
