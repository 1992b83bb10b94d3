-- ===== src/Ido/Processor/Participate/Stored.antt =====
-- The pool that `participate` of ido/program/src/processor.rs leaves in its account.
use solstarter.Common.{ℕ, ◌+◌, ◌≤◌, ◌<◌, ◌^◌, ◌≡◌, ◌≢◌, sym, ◌∙◌, Option, none, some, arith}
use solstarter.Solana.{
  World, Clock, AccountInfo, require-eq-ok, Rent, Runtime, Pubkey, ok, >>=-eq-ok, IsKept,
  IsKept-trans, write-ok, call_keeps, IsIsolated, IsLawful, same_key,
}
use solstarter.Ido.Instruction
use solstarter.Ido.State.Sale.{get_current_stage}
use solstarter.Ido.Processor.Participate.Taken.{
  map_in_use-ok, IsReached, Taken, steps-IsReached, amount_and_tier-Taken,
}
use solstarter.Ido.State.{Pool, Stage, MintWhitelist}
use solstarter.Ido.Processor.Shared.{Codecs}
use solstarter.Ido.Processor.Participate.{
  ParticipateAccounts, stage_seed, create_stage_account, use_whitelist, check_amount, participate,
}
use solstarter.Ido.Processor.Participate.Invest.{
  Invests, invest-Invests, amount_and_tier-le, Invests-le-goal,
}
use solstarter.Ido.Processor.Participate.Steps.{Steps, participate-Steps}
use solstarter.Ido.Processor.Participate.Checks.{check_amount-ok, check_participation-ok}

module _ (system_program token_program staking_program : Pubkey) (rt : Runtime)
    (isolated : IsIsolated system_program token_program staking_program rt) (cs : Codecs)
    (program_id : Pubkey) (a : ParticipateAccounts) (not_system : program_id ≢ system_program)
    (not_token : program_id ≢ token_program) where
  create_keeps :
      (stage : Stage) (rent : Rent) (w w' : World) (k : Pubkey)
      → (w k).owner ≡ program_id
      → create_stage_account rt cs program_id a stage rent w ≡ ok w'
      → IsKept w w' k
  unfolding create_stage_account
  create_keeps stage rent w w' k owned h =
      let (u, _, h₁) = >>=-eq-ok (same_key _ a.pool_user_authority _) _ h in
      let (key, _, h₂) = >>=-eq-ok (rt.create_with_seed _ (stage_seed stage) program_id) _ h₁ in
      let (v, _, h₃) = >>=-eq-ok (same_key key a.user_pool_stage _) _ h₂ in
      call_keeps system_program token_program staking_program rt isolated program_id _ _ _ w w' k
        (λ e. not_system (sym e)) owned (map_in_use-ok rt.account_already_in_use _ h₃)

  whitelist_keeps :
      (m : MintWhitelist) (account mint : Option AccountInfo) (user : AccountInfo) (w w' : World)
      (k : Pubkey)
      → (w k).owner ≡ program_id
      → use_whitelist rt cs program_id m account mint user w ≡ ok w'
      → IsKept w w' k
  unfolding use_whitelist
  whitelist_keeps (MintWhitelist.none _) account mint user w w' k owned h = ground arith
  whitelist_keeps (MintWhitelist.key m) (some account) (some mint) user w w' k owned h =
      let (_, burnt) = require-eq-ok _ _ _ h in
      call_keeps system_program token_program staking_program rt isolated program_id _ _ _ w w' k
        (λ e. not_token (sym e)) owned burnt
  whitelist_keeps (MintWhitelist.key m) (some account) none user w w' k owned h = cc
  whitelist_keeps (MintWhitelist.key m) none mint user w w' k owned h = cc

  -- What the steps of a participation leave in the pool's account.
  pub Steps-stored :
      IsLawful cs.pool
      → (input : Instruction.Participate) (w w' : World) (s : Steps rt cs program_id a input w w')
      → (cs.pool.try_from_slice (w a.pool.key).bytes ≡ some s.pool)
        × (cs.pool.try_from_slice (w' a.pool.key).bytes ≡ some s.pool')
        × ((w' a.pool.key).owner ≡ program_id)
  Steps-stored lawful input w w' s =
      let k : Pubkey = a.pool.key in
      let owned : (w k).owner ≡ program_id = ground (arith, s.owners) in
      let stored : cs.pool.try_from_slice (w k).bytes ≡ some s.pool = ground (arith, s.pool_eq) in
      let kept₁ = create_keeps s.stage s.rent w s.created k owned s.created_eq in
      let kept₂ =
        whitelist_keeps s.pool.mint_whitelist a.account_whitelist a.account_mint_whitelist
          a.user_wallet s.created s.burnt k (kept₁.same_owner ∙ owned) s.burnt_eq in
      let kept = IsKept-trans w s.created s.burnt k kept₁ kept₂ in
      let (b, encoded, put, put_owner) = write-ok cs.pool s.pool' a.pool s.burnt s.written_eq in
      let owned_written : (s.written k).owner ≡ program_id = put_owner ∙ kept.same_owner ∙ owned in
      let kept₃ =
        call_keeps system_program token_program staking_program rt isolated program_id _ _ _
          s.written s.paid k (λ e. not_token (sym e)) owned_written s.paid_eq in
      let kept₄ =
        call_keeps system_program token_program staking_program rt isolated program_id _ _ _ s.paid
          w' k (λ e. not_token (sym e)) (kept₃.same_owner ∙ owned_written) s.minted_eq in
      let after = IsKept-trans s.written s.paid w' k kept₃ kept₄ in
      (
        stored,
        rw (after.same_bytes ∙ put) (
            lawful.reads_back s.pool s.pool' (s.burnt k).bytes b (rw kept.same_bytes stored)
              encoded),
        after.same_owner ∙ owned_written,
      )

  -- On a runtime where only its owner changes an account, with a program that is neither the system nor
  -- the token program and a codec that reads back what it writes: a successful participation leaves in
  -- the pool's account, which the program still owns, the pool that was there after an investment. The
  -- stage is that of the clock. In its last stage all of the offer is invested, for no tier; before, the
  -- investment is for the tier that the user's lock reaches, which the pool is charged for, and of the
  -- offer no more than the tier's balance or what remains for it. The lock and the stake pool are read in
  -- a store that keeps all accounts but those of the system and the token program. The offer has passed
  -- the checks of its size.
  pub participate_stores :
      IsLawful cs.pool
      → (input : Instruction.Participate) (w w' : World)
      → participate rt cs program_id a input w ≡ ok w'
      → (p p' : Pool) × (amount : ℕ) × (tier : Option ℕ) × (stage : Stage) × (d : ℕ)
        × (clock : Clock) × (v : World) × (cs.pool.try_from_slice (w a.pool.key).bytes ≡ some p)
        × (cs.pool.try_from_slice (w' a.pool.key).bytes ≡ some p')
        × ((w' a.pool.key).owner ≡ program_id)
        × Invests p p' amount tier stage d
        × (amount ≤ input.amount)
        × (check_amount p input.amount ≡ ok tt)
        × (rt.clock_from a.clock (w a.clock.key) ≡ ok clock)
        × (get_current_stage p clock ≡ ok stage)
        × IsReached system_program token_program w v
        × Taken rt cs a stage p input.amount v amount tier
  participate_stores lawful input w w' h =
      let s = participate-Steps rt cs program_id a input w w' h in
      let (stored, now, owned) = Steps-stored lawful input w w' s in
      let (d, invests) = invest-Invests s.pool s.amount s.tier s.stage s.invested in
      (
        s.pool,
        s.pool',
        s.amount,
        s.tier,
        s.stage,
        d,
        s.clock,
        s.burnt,
        stored,
        now,
        owned,
        invests,
        amount_and_tier-le rt cs program_id s.stage a s.pool input.amount s.burnt s.amount_eq,
        (check_participation-ok rt cs program_id a s.pool s.clock input.amount s.created
            s.checked).3,
        s.clock_eq,
        s.stage_eq,
        steps-IsReached system_program token_program staking_program rt isolated cs program_id a
            s.stage s.rent s.pool.mint_whitelist a.account_whitelist a.account_mint_whitelist
            a.user_wallet w s.created s.burnt s.created_eq s.burnt_eq,
        amount_and_tier-Taken rt cs program_id a s.stage s.pool input.amount s.burnt s.amount_eq,
      )

  -- On a runtime where only its owner changes an account, with a program that is neither the system nor
  -- the token program and a codec that reads back what it writes, a successful participation keeps the
  -- goal, and keeps the
  -- amount collected within it if it was so before, where the goal and the largest investment together
  -- fit a `u64`.
  pub participate_keeps_goal :
      IsLawful cs.pool
      → (input : Instruction.Participate) (w w' : World) (p : Pool)
      → cs.pool.try_from_slice (w a.pool.key).bytes ≡ some p
      → p.goal_max_collected + p.amount_investment_max < 2 ^ 64
      → p.amount_collected ≤ p.goal_max_collected
      → participate rt cs program_id a input w ≡ ok w'
      → (p' : Pool) × (cs.pool.try_from_slice (w' a.pool.key).bytes ≡ some p')
        × (p'.goal_max_collected ≡ p.goal_max_collected)
        × (p'.amount_collected ≤ p.goal_max_collected)
  participate_keeps_goal lawful input w w' p stored small within done =
      let (q, p', amount, tier, stage, d, _, _, was, now, _, invests, less, checked, _, _, _, _) =
        participate_stores lawful input w w' done in
      let same : p ≡ q = ground (arith, stored, was) in
      let (_, most, room) = check_amount-ok q input.amount checked in
      let small' = rw same at small in
      let within' = rw same at within in
      (
        p',
        now,
        ground (arith, same, invests.others),
        rw same (
            Invests-le-goal q p' input.amount amount tier stage d (omega arith) checked less
              invests),
      )
