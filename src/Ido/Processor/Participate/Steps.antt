-- ===== src/Ido/Processor/Participate/Steps.antt =====
-- The steps of a successful `participate` of ido/program/src/processor.rs.
use solstarter.Common.{ℕ, ◌≡◌, Option, [], ◌∷◌}
use solstarter.Solana.{
  World, Clock, Rent, Runtime, Pubkey, ok, >>=-eq-ok, is_owner, is_signer, read, write,
}
use solstarter.Ido.Instruction
use solstarter.Ido.Invoke.{token_transfer_with_user_authority, token_mint_to}
use solstarter.Ido.State.{Pool, Stage}
use solstarter.Ido.State.Sale.{get_current_stage, was_started}
use solstarter.Ido.Processor.Shared.{Codecs}
use solstarter.Ido.Processor.Participate.{
  ParticipateAccounts, create_stage_account, check_participation, use_whitelist, amount_and_tier,
  invest, participate,
}

module _ (rt : Runtime) (cs : Codecs) (program_id : Pubkey) (a : ParticipateAccounts)
    (input : Instruction.Participate) (w w' : World) where
  -- The steps of a successful participation, with their results.
  pub record Steps : Type 0 where
    pub clock : Clock
    pub rent : Rent
    pub pool : Pool
    pub stage : Stage
    pub created : World
    pub burnt : World
    pub amount : ℕ
    pub tier : Option ℕ
    pub pool' : Pool
    pub written : World
    pub paid : World
    pub owners : is_owner program_id (a.pool ∷ a.market ∷ []) w ≡ ok tt
    pub signer : is_signer a.user_wallet ≡ ok tt
    pub clock_eq : rt.clock_from a.clock (w a.clock.key) ≡ ok clock
    pub pool_eq : read cs.pool a.pool w ≡ ok pool
    pub started : was_started pool clock.unix_timestamp ≡ ok tt
    pub stage_eq : get_current_stage pool clock ≡ ok stage
    pub created_eq : create_stage_account rt cs program_id a stage rent w ≡ ok created
    pub checked : check_participation rt cs program_id a pool clock input.amount created ≡ ok tt
    pub burnt_eq :
        use_whitelist rt cs program_id pool.mint_whitelist a.account_whitelist
          a.account_mint_whitelist a.user_wallet created
        ≡ ok burnt
    pub amount_eq :
        amount_and_tier rt cs program_id stage a pool input.amount burnt ≡ ok (amount, tier)
    pub invested : invest pool amount tier stage ≡ ok pool'
    pub written_eq : write cs.pool pool' a.pool burnt ≡ ok written
    pub paid_eq :
        token_transfer_with_user_authority rt a.user_account_from a.account_collection a.user_wallet
          amount written
        ≡ ok paid
    pub minted_eq :
        token_mint_to rt a.pool.key a.mint_pool a.user_account_to a.pool_authority
          pool'.authority_bump_seed amount paid
        ≡ ok w'

  pub participate-Steps : participate rt cs program_id a input w ≡ ok w' → Steps
  unfolding participate
  participate-Steps h₀ =
      let (u₁, owners, h₁) = >>=-eq-ok (is_owner program_id (a.pool ∷ a.market ∷ []) w) _ h₀ in
      let (u₂, signer, h₂) = >>=-eq-ok (is_signer a.user_wallet) _ h₁ in
      let (clock, clock_eq, h₃) = >>=-eq-ok (rt.clock_from a.clock (w a.clock.key)) _ h₂ in
      let (rent, rent_eq, h₄) = >>=-eq-ok (rt.rent_from a.rent (w a.rent.key)) _ h₃ in
      let (pool, pool_eq, h₅) = >>=-eq-ok (read cs.pool a.pool w) _ h₄ in
      let (u₃, started, h₆) = >>=-eq-ok (was_started pool clock.unix_timestamp) _ h₅ in
      let (stage, stage_eq, h₇) = >>=-eq-ok (get_current_stage pool clock) _ h₆ in
      let (created, created_eq, h₈) =
        >>=-eq-ok (create_stage_account rt cs program_id a stage rent w) _ h₇ in
      let (u₄, checked, h₉) =
        >>=-eq-ok (check_participation rt cs program_id a pool clock input.amount created) _ h₈ in
      let (burnt, burnt_eq, g₁) =
        >>=-eq-ok
          (use_whitelist rt cs program_id pool.mint_whitelist a.account_whitelist
            a.account_mint_whitelist a.user_wallet created)
          _ h₉ in
      let ((amount, tier), amount_eq, g₂) =
        >>=-eq-ok (amount_and_tier rt cs program_id stage a pool input.amount burnt) _ g₁ in
      let (pool', invested, g₃) = >>=-eq-ok (invest pool amount tier stage) _ g₂ in
      let (written, written_eq, g₄) = >>=-eq-ok (write cs.pool pool' a.pool burnt) _ g₃ in
      let (paid, paid_eq, minted_eq) =
        >>=-eq-ok
          (token_transfer_with_user_authority rt a.user_account_from a.account_collection
            a.user_wallet amount written)
          _ g₄ in
      record {
        clock = clock;
        rent = rent;
        pool = pool;
        stage = stage;
        created = created;
        burnt = burnt;
        amount = amount;
        tier = tier;
        pool' = pool';
        written = written;
        paid = paid;
        owners = owners;
        signer = signer;
        clock_eq = clock_eq;
        pool_eq = pool_eq;
        started = started;
        stage_eq = stage_eq;
        created_eq = created_eq;
        checked = checked;
        burnt_eq = burnt_eq;
        amount_eq = amount_eq;
        invested = invested;
        written_eq = written_eq;
        paid_eq = paid_eq;
        minted_eq = minted_eq;
      }
