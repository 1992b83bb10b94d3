-- ===== src/Staking/Processor/Dispatch/Few.antt =====
-- `process_instruction` of staking/program/src/processor.rs with too few accounts.
use solstarter.Common.{ℕ, ◌≤◌, ◌≡◌, some, refl, List, length, arith}
use solstarter.Solana.{
  Pubkey, World, Bytes, InstructionCodec, AccountInfo, Runtime, err, not_enough_account_keys,
}
use solstarter.Staking.Instruction.{Instruction}
use solstarter.Staking.Processor.Shared.{Codecs}
use solstarter.Staking.Processor.Dispatch.{dispatch, process_instruction}

-- How many accounts an instruction needs.
abbrev pub needed : Instruction → ℕ
needed (Instruction.initialize_pool _) = 7
needed (Instruction.stake_start _) = 11
needed Instruction.stake_finish = 10
needed (Instruction.unstake_start _) = 12
needed Instruction.unstake_finish = 8
needed Instruction.initialize_lock = 9
needed (Instruction.lock _) = 8
needed (Instruction.unlock _) = 8
needed (Instruction.start_pool _) = 3

-- An instruction takes more accounts than it needs, but for `initialize_lock`, which takes exactly nine.
abbrev pub Fits : Instruction → List AccountInfo → Type 0
Fits Instruction.initialize_lock accounts = length accounts ≡ 9
Fits i accounts = needed i ≤ length accounts

dispatch_few :
    (rt : Runtime) (cs : Codecs) (program_id : Pubkey) (i : Instruction)
    (accounts : List AccountInfo) (w : World)
    → ¬ Fits i accounts
    → dispatch rt cs program_id i accounts w ≡ err not_enough_account_keys
unfolding dispatch
dispatch_few rt cs program_id i accounts w few = grind arith

-- An instruction whose accounts do not fit, too few or, for `initialize_lock`, not exactly nine, is
-- refused for that, whatever the accounts are and whatever is stored.
pub process_instruction_refuses :
    (rt : Runtime) (cs : Codecs) (program_id : Pubkey) (codec : InstructionCodec Instruction)
    (accounts : List AccountInfo) (input : Bytes) (w : World) (i : Instruction)
    → codec.decode input ≡ some i
    → ¬ Fits i accounts
    → process_instruction rt cs program_id codec accounts input w ≡ err not_enough_account_keys
unfolding process_instruction
process_instruction_refuses rt cs program_id codec accounts input w i e few =
    rw (e, dispatch_few rt cs program_id i accounts w few) refl
