-- ===== src/Staking/Processor/Dispatch/Built.antt =====
-- The builders of staking/program/src/instruction.rs and the dispatch of
-- staking/program/src/processor.rs agree on the accounts of every instruction.
use solstarter.Common.{◌≡◌, refl, Bool}
use solstarter.Solana.{
  Pubkey, World, Runtime, ◌>>=◌, >>=-regroup, infos, ProgramIds, InstructionCodec, IsInverse,
}
use solstarter.Staking.Program.{lock_seed, program_id}
use solstarter.Staking.Instruction.{Instruction}
use solstarter.Staking.Instruction.Build
use solstarter.Staking.Instruction.Build.{find_key_program_address, find_2key_program_address}
use solstarter.Staking.Processor.Shared.{Codecs}
use solstarter.Staking.Processor.Dispatch.{process_instruction}
use solstarter.Staking.Processor.Dispatch.Requests.{Request, build, run}

module _ (rt : Runtime) (cs : Codecs) (ids : ProgramIds)
    (codec : InstructionCodec Instruction) where
  module _ (signed : Pubkey → Bool) where
    -- Where instructions are decoded from their encodings, to build an instruction and to process it,
    -- with the accounts that the runtime hands over for its keys and any signatures, is to run the
    -- handler of the request on the accounts of the request's names and on the keys derived from them.
    pub process_instruction-build :
        IsInverse codec
        → (r : Request) (w : World)
        → (build rt cs ids codec r >>= λ i.
            process_instruction rt cs i.program_id codec (infos signed i.accounts) i.bytes w)
          ≡ run rt cs ids codec signed r w
    unfolding process_instruction Build.initialize_pool Build.stake_start Build.stake_finish
        Build.unstake_start Build.unstake_finish Build.initialize_lock Build.lock Build.unlock
        Build.start_pool
    process_instruction-build inverse (Request.initialize_pool p t m x input) w =
        let (b, e, d) = inverse.inverts (Instruction.initialize_pool input) in rw (e, d) refl
    process_instruction-build inverse (Request.stake_start p t a b m u x input) w =
        let (c, e, d) = inverse.inverts (Instruction.stake_start input) in rw (e, d) refl
    process_instruction-build inverse (Request.stake_finish p t a b m u x) w =
        let (c, e, d) = inverse.inverts Instruction.stake_finish in rw (e, d) refl
    process_instruction-build inverse (Request.unstake_start p t a b m u x y input) w =
        let (c, e, d) = inverse.inverts (Instruction.unstake_start input) in rw (e, d) refl
    process_instruction-build inverse (Request.unstake_finish p t a u x) w =
        let (c, e, d) = inverse.inverts Instruction.unstake_finish in rw (e, d) refl
    process_instruction-build inverse (Request.initialize_lock p u m x) w =
        let (c, e, d) = inverse.inverts Instruction.initialize_lock in
        >>=-regroup (rt.create_with_seed (find_2key_program_address rt p u) lock_seed program_id) _
          _ _ (λ k. rw (e, d) refl)
    process_instruction-build inverse (Request.lock p u l x input) w =
        let (c, e, d) = inverse.inverts (Instruction.lock input) in
        >>=-regroup (rt.create_with_seed (find_2key_program_address rt p u) lock_seed program_id) _
          _ _ (λ k. rw (e, d) refl)
    process_instruction-build inverse (Request.unlock p u l x input) w =
        let (c, e, d) = inverse.inverts (Instruction.unlock input) in
        >>=-regroup (rt.create_with_seed (find_2key_program_address rt p u) lock_seed program_id) _
          _ _ (λ k. rw (e, d) refl)
    process_instruction-build inverse (Request.start_pool p m input) w =
        let (c, e, d) = inverse.inverts (Instruction.start_pool input) in rw (e, d) refl
