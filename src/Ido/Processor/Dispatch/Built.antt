-- ===== src/Ido/Processor/Dispatch/Built.antt =====
-- The builders of ido/program/src/instruction.rs and the dispatch of ido/program/src/processor.rs agree
-- on the accounts of every instruction.
use Prim.Native.String.{String}
use solstarter.Common.{ℕ, ◌≡◌, refl, Bool, true, none, some, arith}
use solstarter.Solana.{
  Pubkey, World, Runtime, ◌>>=◌, >>=-regroup, infos, ProgramIds, InstructionCodec, IsInverse,
}
use solstarter.Ido.Instruction.{Instruction}
use solstarter.Ido.Instruction.Build
use solstarter.Ido.Instruction.Build.{unwrap_or}
use solstarter.Ido.Processor.Shared.{Codecs}
use solstarter.Ido.Processor.Dispatch.{process_instruction}
use solstarter.Ido.Processor.Dispatch.Requests.{Request, names_in_order, build, run}

module _ (rt : Runtime) (cs : Codecs) (ids : ProgramIds) (codec : InstructionCodec Instruction)
    (format : ℕ → String) (program_id : Pubkey) where
  module _ (signed : Pubkey → Bool) where
    -- Where instructions are decoded from their encodings, to build an instruction and to process it,
    -- with the accounts that the runtime hands over for its keys and any signatures, is to run the
    -- handler of the request on the accounts of the request's names and on the keys derived from them. A
    -- participation that names a whitelist's mint has to name the whitelist's account too.
    pub built_instruction_runs :
        IsInverse codec
        → (r : Request) (w : World) → names_in_order r ≡ true
        → (build rt cs ids codec format program_id r >>= λ i.
            process_instruction rt cs i.program_id codec (infos signed i.accounts) i.bytes w)
          ≡ run rt cs ids codec format program_id signed r w
    unfolding process_instruction Build.initialize_market Build.initialize_pool Build.participate
        Build.claim Build.add_to_whitelist Build.withdraw Build.create_market_user_kyc
        Build.delete_market_user_kyc Build.start_pool
    built_instruction_runs inverse (Request.initialize_market k0 k1 input) w ordered =
        let (c, e, d) = inverse.inverts (Instruction.initialize_market input) in rw (e, d) refl
    built_instruction_runs inverse (Request.initialize_pool k0 k1 k2 k3 k4 k5 k6 k7 none input) w
          ordered =
        let (c, e, d) = inverse.inverts (Instruction.initialize_pool input) in rw (e, d) refl
    built_instruction_runs inverse (Request.initialize_pool k0 k1 k2 k3 k4 k5 k6 k7 (some m) input)
          w ordered =
        let (c, e, d) = inverse.inverts (Instruction.initialize_pool input) in rw (e, d) refl
    built_instruction_runs inverse
          (Request.participate k0 k1 k2 k3 k4 k5 k6 k7 k8 k9 kyc none none input stage) w ordered =
        let (c, e, d) = inverse.inverts (Instruction.participate input) in
        >>=-regroup (rt.create_with_seed _ _ _) _ _ _ (λ k. rw (e, d) refl)
    built_instruction_runs inverse
          (Request.participate k0 k1 k2 k3 k4 k5 k6 k7 k8 k9 kyc none (some m) input stage) w
          ordered =
        ground arith
    built_instruction_runs inverse
          (Request.participate k0 k1 k2 k3 k4 k5 k6 k7 k8 k9 kyc (some a) none input stage) w
          ordered =
        let (c, e, d) = inverse.inverts (Instruction.participate input) in
        >>=-regroup (rt.create_with_seed _ _ _) _ _ _ (λ k. rw (e, d) refl)
    built_instruction_runs inverse
          (Request.participate k0 k1 k2 k3 k4 k5 k6 k7 k8 k9 kyc (some a) (some m) input stage) w
          ordered =
        let (c, e, d) = inverse.inverts (Instruction.participate input) in
        >>=-regroup (rt.create_with_seed _ _ _) _ _ _ (λ k. rw (e, d) refl)
    built_instruction_runs inverse (Request.claim k0 k1 k2 k3 k4 k5 k6) w ordered =
        let (c, e, d) = inverse.inverts Instruction.claim in rw (e, d) refl
    built_instruction_runs inverse (Request.add_to_whitelist k0 k1 k2 k3) w ordered =
        let (c, e, d) = inverse.inverts Instruction.add_to_whitelist in rw (e, d) refl
    built_instruction_runs inverse (Request.withdraw k0 k1 k2 k3 k4) w ordered =
        let (c, e, d) = inverse.inverts Instruction.withdraw in rw (e, d) refl
    built_instruction_runs inverse (Request.create_market_user_kyc k0 k1 k2 input) w ordered =
        let (c, e, d) = inverse.inverts (Instruction.create_market_user_kyc input) in
        >>=-regroup (rt.create_with_seed _ _ _) _ _ _ (λ k. rw (e, d) refl)
    built_instruction_runs inverse (Request.delete_market_user_kyc k0 k1 k2) w ordered =
        let (c, e, d) = inverse.inverts Instruction.delete_market_user_kyc in
        >>=-regroup (rt.create_with_seed _ _ _) _ _ _ (λ k. rw (e, d) refl)
    built_instruction_runs inverse (Request.start_pool k0 k1 k2 k3) w ordered =
        let (c, e, d) = inverse.inverts Instruction.start_pool in rw (e, d) refl
