-- ===== src/Ido/Processor/Dispatch/Few.antt =====
-- `process_instruction` of ido/program/src/processor.rs with too few accounts.
use solstarter.Common.{ℕ, ◌<◌, ◌≡◌, refl, some, List, length, arith}
use solstarter.Solana.{
  Pubkey, Bytes, World, AccountInfo, Runtime, InstructionCodec, err, not_enough_account_keys,
}
use solstarter.Ido.Instruction.{Instruction}
use solstarter.Ido.Processor.Shared.{Codecs}
use solstarter.Ido.Processor.Dispatch.{dispatch, process_instruction}

-- How many accounts an instruction needs.
abbrev pub needed : Instruction → ℕ
needed (Instruction.initialize_market _) = 3
needed (Instruction.initialize_pool _) = 13
needed (Instruction.participate _) = 18
needed Instruction.claim = 10
needed Instruction.add_to_whitelist = 6
needed Instruction.withdraw = 8
needed (Instruction.create_market_user_kyc _) = 8
needed Instruction.delete_market_user_kyc = 6
needed Instruction.start_pool = 7

dispatch_few :
    (rt : Runtime) (cs : Codecs) (program_id : Pubkey) (i : Instruction)
    (accounts : List AccountInfo) (w : World)
    → length accounts < needed i
    → dispatch rt cs program_id i accounts w ≡ err not_enough_account_keys
unfolding dispatch
dispatch_few rt cs program_id i accounts w few = grind arith

-- An instruction with too few accounts is refused for that, whatever the accounts are and whatever is
-- stored.
pub few_accounts_refused :
    (rt : Runtime) (cs : Codecs) (program_id : Pubkey) (codec : InstructionCodec Instruction)
    (accounts : List AccountInfo) (input : Bytes) (w : World) (i : Instruction)
    → codec.decode input ≡ some i
    → length accounts < needed i
    → process_instruction rt cs program_id codec accounts input w ≡ err not_enough_account_keys
unfolding process_instruction
few_accounts_refused rt cs program_id codec accounts input w i e few =
    rw (e, dispatch_few rt cs program_id i accounts w few) refl
