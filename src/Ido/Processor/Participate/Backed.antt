-- ===== src/Ido/Processor/Participate/Backed.antt =====
-- The collected tokens that a participation of ido/program/src/processor.rs brings.
use solstarter.Common.{◌+◌, ◌≡◌, ◌≢◌, refl, sym, ap, ◌∙◌, Option, none, some, [], ◌∷◌, arith}
use solstarter.Solana.{
  World, AccountInfo, require-eq-ok, Rent, Runtime, Pubkey, TokenAccount, ok, >>=-eq-ok, IsKept,
  write_keeps, call_keeps, IsIsolated, IsToken, IsTokenBurn, IsLawful, same_key, first_owner,
}
use solstarter.Ido.Instruction
use solstarter.Ido.State.{Pool, Stage, MintWhitelist}
use solstarter.Ido.Processor.Shared.{Codecs}
use solstarter.Ido.Processor.Participate.{
  ParticipateAccounts, stage_seed, create_stage_account, use_whitelist, participate,
}
use solstarter.Ido.Processor.Participate.Invest.{invest-Invests}
use solstarter.Ido.Processor.Participate.Steps.{participate-Steps}
use solstarter.Ido.Processor.Participate.Stored.{Steps-stored}
use solstarter.Ido.Processor.Participate.Taken.{map_in_use-ok}

module _ (system_program token_program staking_program : Pubkey) (rt : Runtime)
    (isolated : IsIsolated system_program token_program staking_program rt) (burn : IsTokenBurn rt)
    (cs : Codecs) (program_id : Pubkey) (a : ParticipateAccounts)
    (apart : token_program ≢ system_program) where
  create_keeps_tokens :
      (stage : Stage) (rent : Rent) (w w' : World) (k : Pubkey)
      → (w k).owner ≡ token_program
      → create_stage_account rt cs program_id a stage rent w ≡ ok w'
      → IsKept w w' k
  unfolding create_stage_account
  create_keeps_tokens stage rent w w' k owned h =
      let (u, _, h₁) = >>=-eq-ok (same_key _ a.pool_user_authority _) _ h in
      let (key, _, h₂) = >>=-eq-ok (rt.create_with_seed _ (stage_seed stage) program_id) _ h₁ in
      let (v, _, h₃) = >>=-eq-ok (same_key key a.user_pool_stage _) _ h₂ in
      call_keeps system_program token_program staking_program rt isolated token_program _ _ _ w w' k
        (λ e. apart (sym e)) owned (map_in_use-ok rt.account_already_in_use _ h₃)

  whitelist_keeps_tokens :
      (m : MintWhitelist) (account mint : Option AccountInfo) (user : AccountInfo) (w w' : World)
      (k : Pubkey)
      → ((b : AccountInfo) → account ≡ some b → k ≢ b.key)
      → ((b : AccountInfo) → mint ≡ some b → k ≢ b.key)
      → use_whitelist rt cs program_id m account mint user w ≡ ok w'
      → (w' k).bytes ≡ (w k).bytes
  unfolding use_whitelist
  whitelist_keeps_tokens (MintWhitelist.none _) account mint user w w' k not_account not_mint h =
      ground arith
  whitelist_keeps_tokens (MintWhitelist.key m) (some account) (some mint) user w w' k not_account
        not_mint h =
      let (_, burnt) = require-eq-ok _ _ _ h in
      burn.burns _ _ _ _ _ _ _ w w' k burnt (not_account account refl) (not_mint mint refl)
  whitelist_keeps_tokens (MintWhitelist.key m) (some account) none user w w' k not_account not_mint
        h =
      cc
  whitelist_keeps_tokens (MintWhitelist.key m) none mint user w w' k not_account not_mint h = cc

  -- On a runtime where only its owner changes an account, with a token program that moves what it is told
  -- to, a program that is neither that nor the system program, and a codec that reads back what it writes:
  -- a successful participation whose collecting account is none of the other token accounts and mints
  -- given brings into it exactly what the amount collected in the pool grows by.
  pub participate_backs :
      IsToken rt
      → IsLawful cs.pool
      → program_id ≢ system_program
      → program_id ≢ token_program
      → (input : Instruction.Participate) (w w' : World) (p : Pool) (t : TokenAccount)
      → a.user_account_from.key ≢ a.account_collection.key
      → a.account_collection.key ≢ a.mint_pool.key
      → a.account_collection.key ≢ a.user_account_to.key
      → ((b : AccountInfo) → a.account_whitelist ≡ some b → a.account_collection.key ≢ b.key)
      → ((b : AccountInfo) → a.account_mint_whitelist ≡ some b → a.account_collection.key ≢ b.key)
      → (w a.account_collection.key).owner ≡ token_program
      → rt.unpack_account (w a.account_collection.key).bytes ≡ ok t
      → cs.pool.try_from_slice (w a.pool.key).bytes ≡ some p
      → participate rt cs program_id a input w ≡ ok w'
      → (p' : Pool) × (t' : TokenAccount) × (cs.pool.try_from_slice (w' a.pool.key).bytes ≡ some p')
        × (rt.unpack_account (w' a.account_collection.key).bytes ≡ ok t')
        × (t'.amount + p.amount_collected ≡ t.amount + p'.amount_collected)
  participate_backs token lawful not_system not_token input w w' p t ends not_mint not_to
        not_account not_listed held unpacked stored h =
      let k : Pubkey = a.account_collection.key in
      let s = participate-Steps rt cs program_id a input w w' h in
      let (was, now, _) =
        Steps-stored system_program token_program staking_program rt isolated cs program_id a
          not_system not_token lawful input w w' s in
      let made = create_keeps_tokens s.stage s.rent w s.created k held s.created_eq in
      let burnt =
        whitelist_keeps_tokens s.pool.mint_whitelist a.account_whitelist a.account_mint_whitelist
          a.user_wallet s.created s.burnt k not_account not_listed s.burnt_eq in
      let owned : (w a.pool.key).owner ≡ program_id =
        first_owner program_id a.pool (a.market ∷ []) w s.owners in
      let not_pool : a.pool.key ≢ k = λ e. not_token (sym owned ∙ ap (λ j. (w j).owner) e ∙ held) in
      let written = write_keeps cs.pool s.pool' a.pool s.burnt k s.written_eq not_pool in
      let same : (s.written k).bytes ≡ (w k).bytes =
        ap (λ x. x.bytes) written ∙ burnt ∙ made.same_bytes in
      let (t', paid, sum) =
        token.credits _ _ _ _ _ _ _ s.written s.paid t s.paid_eq ends (rw same unpacked) in
      let minted = token.mints _ _ _ _ _ _ _ s.paid w' k s.minted_eq not_mint not_to in
      let (d, invests) = invest-Invests s.pool s.amount s.tier s.stage s.invested in
      let counted : s.pool'.amount_collected ≡ s.pool.amount_collected + s.amount =
        ap (λ x. x.amount_collected) invests.others in
      let same_p : p.amount_collected ≡ s.pool.amount_collected = ground (arith, stored, was) in
      (s.pool', t', now, rw minted paid, omega arith)
