-- ===== src/Lib.antt =====
-- SolStarter: token sales (IDO) and the staking that ranks their participants, two Solana programs.
--
-- The programs. `staking/program` keeps a pool of staked tokens. A user's stake or unstake is a transit
-- account, out of which tokens are claimed linearly over a period (`utils/math.rs`). Locked pool tokens
-- put a user in one of four tiers (`get_tier`), whose users the pool counts. `ido/program` keeps markets,
-- pools (one for each sale) and KYC records. A sale runs through three stages; in the first two a
-- participation is limited by the tier of the user's lock in the staking program. The IDO's `start_pool`
-- reads the counts of tier users to set the allocations, and calls the staking program's `start_pool`
-- to stop changes of locks during the sale.
--
-- The files.
--   Solana/Outcome    `Result<_, ProgramError>`, `?`, and panics.
--   Solana/Store      accounts in a store by key; a key stands for 32 bytes and is only compared.
--   Solana/Outside    what is not in the repository: the runtime with its sysvars, the system and the
--                     token program, key derivation, and the codecs that borsh derives.
--   Solana/Laws       the documented behaviour of these on which some theorems rely.
--   Solana/Kept       what calls of other programs and writes keep of a program's accounts.
--   Solana/Checked    what the checks of Solana/Patterns have shown where they succeed.
--   Solana/Patterns   `is_owner!`, `same_key`, ido/program/src/utils/program.rs.
--   Staking/Error, Math, State, Program, Invoke
--                     staking/program/src/error.rs, utils/math.rs, state.rs, lib.rs with
--                     utils/program.rs, utils/invoke.rs.
--   Staking/Processor/Shared, Initialize, Stake, Unstake, Lock, Start
--                     staking/program/src/processor.rs, with the inputs of instruction.rs.
--   Ido/Error, Math, State, Instruction, Invoke
--                     ido/program/src/error.rs, utils/math.rs, state.rs, instruction.rs, utils/invoke.rs.
--   Ido/State/Sale    the methods of `Pool` in ido/program/src/state.rs.
--   Ido/Processor/Shared, Initialize, Participate, Settle, Kyc, Start
--                     ido/program/src/processor.rs.
--   Solana/Instruction, Staking/Instruction, Staking/Instruction/Build, Ido/Instruction/Build
--                     the instructions and their builders in both instruction.rs.
--   Staking/Processor/Dispatch, Ido/Processor/Dispatch
--                     `process_instruction` of both processor.rs.
--   The other files below Staking and Ido hold theorems and the notions they are stated with.
--   Common            numbers, lists, options and tests; Tests has concrete runs.
--
-- The model. A handler is a function of its accounts, its input and the store, with a `Result` of the
-- store it leaves: an error or a panic aborts the transaction and leaves the store as it was. It has the
-- name of the Rust function and its checks in the order of the code; accounts that the code does not
-- read are left out. Two accounts with one key are one entry of the store, as at run time. `u64` and `u32`
-- are natural numbers with the checks of the code's checked operations; unchecked `+`, `-` and `sum` wrap
-- around, as in a build without overflow checks. `i64` is an integer with the same treatment. Arrays are
-- lists, with a panic where an index is out of bounds. All recursion is on lists: no fuel is used.
--
-- Not modelled. The entrypoints, the command line client and the SDK helpers, which are input and
-- output; `swap_accounts` and the account readers of utils/borsh.rs, which nothing calls; run-time borrow
-- errors, except that a KYC account burnt into itself panics.
pub mod Common
pub mod Solana
pub mod Staking
pub mod Ido
pub mod Tests
