-- ===== src/Ido/Processor/Start/Freezes.antt =====
-- `start_pool` of ido/program/src/processor.rs with the staking program behind its call: the builder and
-- the dispatch of the staking program, its `start_pool`, and later its `lock` and `unlock`.
use solstarter.Common.{ℤ, ◌≡◌, ◌≢◌, ◌<ℤ◌, sym, ap, ◌∙◌, refl, Bool, some, List, [], ◌∷◌, arith}
use solstarter.Solana
use solstarter.Solana.{
  Seed, World, AccountInfo, Clock, Runtime, Pubkey, Result, ok, ◌>>=◌, InstructionCodec, IsInverse,
  ProgramIds, info, infos, IsLawful, write_keeps, first_owner, second_owner, read_unwrap-ok,
}
use solstarter.Staking.Program
use solstarter.Staking.State.{StakePool}
use solstarter.Staking.Instruction as Staking
use solstarter.Staking.Instruction.Build
use solstarter.Staking.Processor.Shared as StakingShared
use solstarter.Staking.Processor.Shared.{LockInput, UnlockInput, StartPoolInput}
use solstarter.Staking.Processor.Dispatch as StakingDispatch
use solstarter.Staking.Processor.Dispatch.Built
use solstarter.Staking.Processor.Dispatch.Requests
use solstarter.Staking.Processor.Lock.{LockAccounts, lock, unlock}
use solstarter.Staking.Processor.Lock.Frozen.{locks_frozen}
use solstarter.Staking.Processor.Start.Stored.{start_pool-IsStarted}
use solstarter.Ido.State.{Pool}
use solstarter.Ido.Processor.Shared.{Codecs}
use solstarter.Ido.Processor.Start.{StartPoolAccounts, start_pool}
use solstarter.Ido.Processor.Start.Stored.{start_pool-Steps}

module _ (rt : Runtime) (staking : StakingShared.Codecs) (ids : ProgramIds)
    (codec : InstructionCodec Staking.Instruction) where
  -- A call of the staking program's `start_pool` runs that program on the instruction of its builder,
  -- with some signatures.
  pub record RunsStaking : Type 0 where
    pub runs :
        (pool authority : Pubkey) (until : ℤ) (accounts : List AccountInfo) (seeds : List Seed)
        (w w' : World)
        → rt.invoke_signed (Solana.start_pool pool authority until) accounts seeds w ≡ ok w'
        → (signed : Pubkey → Bool) × ((Build.start_pool rt ids codec pool authority
                (record { pool_active_until = until })
              >>= λ i.
                  StakingDispatch.process_instruction rt staking i.program_id codec
                    (infos signed i.accounts)
                    i.bytes
                    w)
            ≡ ok w')

module _ (rt : Runtime) (staking : StakingShared.Codecs) (lawful : IsLawful staking.stake_pool)
    (ids : ProgramIds) (codec : InstructionCodec Staking.Instruction) (inverse : IsInverse codec)
    (calls : RunsStaking rt staking ids codec) where
  -- A successful call leaves the stake pool active until the time given, and nothing else changed.
  call-stored :
      (pool authority : Pubkey) (until : ℤ) (accounts : List AccountInfo) (seeds : List Seed)
      (w w' : World)
      → rt.invoke_signed (Solana.start_pool pool authority until) accounts seeds w ≡ ok w'
      → (s : StakePool) × (staking.stake_pool.try_from_slice (w' pool).bytes ≡ some s)
        × (s.pool_active_until ≡ until)
        × ((w pool).owner ≡ Program.program_id)
  call-stored pool authority until accounts seeds w w' h =
      let (signed, run) = calls.runs pool authority until accounts seeds w w' h in
      let built =
        Built.process_instruction-build rt staking ids codec signed inverse
          (Requests.start_pool pool authority (record { pool_active_until = until })) w in
      let (s, clock, started) =
        start_pool-IsStarted rt staking lawful Program.program_id _ _ w w' (sym built ∙ run) in
      (record s { pool_active_until = until }, started.started, refl, started.owned)

  module _ (cs : Codecs) (program_id : Pubkey) (not_staking : program_id ≢ Program.program_id) where
    -- What a successful start leaves in the stake pool's account.
    start_pool-frozen :
        (a : StartPoolAccounts) (w w' : World) (p : Pool)
        → cs.pool.try_from_slice (w a.pool.key).bytes ≡ some p
        → start_pool rt cs program_id a w ≡ ok w'
        → (s : StakePool) × (staking.stake_pool.try_from_slice (w' a.stake_pool.key).bytes ≡ some s)
          × (s.pool_active_until ≡ p.time_finish)
    start_pool-frozen a w w' p stored h =
        let steps = start_pool-Steps rt cs program_id a w w' h in
        let (s, frozen, until, owned) = call-stored _ _ _ _ _ w steps.called steps.call in
        let apart_m : a.market.key ≢ a.stake_pool.key = λ e. not_staking (
          sym (first_owner program_id a.market (a.pool ∷ []) w steps.owners)
          ∙ ap (λ k. (w k).owner) e
          ∙ owned) in
        let apart_p : a.pool.key ≢ a.stake_pool.key = λ e. not_staking (
          sym (second_owner program_id a.market a.pool w steps.owners)
          ∙ ap (λ k. (w k).owner) e
          ∙ owned) in
        let same_m =
          write_keeps cs.market steps.market a.market steps.called a.stake_pool.key steps.put_m
            apart_m in
        let same_p =
          write_keeps cs.pool steps.pool' a.pool steps.written a.stake_pool.key steps.put apart_p in
        let same : p ≡ steps.pool =
          ground (arith, stored, read_unwrap-ok cs.pool a.pool w steps.read_p) in
        (s, rw (same_p, same_m) frozen, until ∙ sym (ap (λ x. x.time_finish) same))

    -- On a runtime whose calls of the staking program's `start_pool` run that program on the instruction
    -- of its builder, for an IDO program with another key than that, and with codecs that read back what
    -- they write: after a successful `start_pool` of a sale, and as long as the stake pool's data stay
    -- what it left there, neither `lock` nor `unlock` of the staking program succeeds on that stake pool
    -- before the finish of the sale.
    pub start_pool_freezes_locks :
        (a : StartPoolAccounts) (w w' : World) (p : Pool)
        → cs.pool.try_from_slice (w a.pool.key).bytes ≡ some p
        → start_pool rt cs program_id a w ≡ ok w'
        → (l : LockAccounts) (v v' : World) (clock : Clock) → l.pool.key ≡ a.stake_pool.key
        → (v l.pool.key).bytes ≡ (w' a.stake_pool.key).bytes
        → rt.clock_from l.clock (v l.clock.key) ≡ ok clock
        → clock.unix_timestamp <ℤ p.time_finish
        → (locked : LockInput) (unlocked : UnlockInput)
        → (lock rt staking Program.program_id l locked v ≢ ok v')
          × (unlock rt staking Program.program_id l unlocked v ≢ ok v')
    start_pool_freezes_locks a w w' p stored h l v v' clock same_pool same_bytes now before locked
          unlocked =
        let (s, frozen, until) = start_pool-frozen a w w' p stored h in
        locks_frozen rt staking Program.program_id l v s clock (rw same_bytes frozen) now
          (rw until before) locked unlocked v'
