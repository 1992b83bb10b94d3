-- ===== src/Ido/Processor/Participate/Checks.antt =====
-- What a successful `participate` of ido/program/src/processor.rs has checked and done.
use solstarter.Common.{
  ℕ, ◌+◌, ◌%◌, ◌≤◌, ◌^◌, ℤ, ◌≤ℤ◌, ◌<ℤ◌, ◌≡◌, ◌≢◌, ◌==◌, sym, ap, ◌∙◌, true, some, [], ◌∷◌, arith,
}
use solstarter.Solana.{
  World, Clock, Rent, Runtime, Pubkey, ok, >>=-eq-ok, require-eq-ok, is_owner, read, same-eq,
  IsSystem, IsSystemFree,
}
use solstarter.Staking.Program.{find_2key_program_address}
use solstarter.Ido.Error.{wrong_user_pool_stage, into}
use solstarter.Ido.Processor.Participate.Taken.{map_in_use-ok}
use solstarter.Ido.Instruction
use solstarter.Ido.State.{Pool, Stage, MarketUserKyc, is_kyc_required, any_required}
use solstarter.Ido.State.Sale.{get_current_stage, was_started}
use solstarter.Ido.Processor.Shared.{Codecs}
use solstarter.Ido.Processor.Participate.{
  ParticipateAccounts, check_kyc, check_amount, check_participation, create_stage_account,
  stage_seed, participate,
}
use solstarter.Ido.Processor.Participate.Steps.{participate-Steps}

was_started-ok :
    (p : Pool) (now : ℤ) → was_started p now ≡ ok tt → (p.version ≢ 0) × (p.time_start <ℤ now)
unfolding was_started
was_started-ok p now h = ground arith

get_current_stage-ok :
    (p : Pool) (clock : Clock) {stage : Stage}
    → get_current_stage p clock ≡ ok stage
    → clock.unix_timestamp ≤ℤ p.time_finish
unfolding get_current_stage
get_current_stage-ok p clock h = ground arith

pub check_amount-ok :
    (p : Pool) (amount : ℕ)
    → check_amount p amount ≡ ok tt
    → (p.amount_investment_min ≤ amount)
      × (amount ≤ p.amount_investment_max)
      × ((p.amount_collected + amount) % 2 ^ 64 ≤ p.goal_max_collected)
unfolding check_amount
check_amount-ok p amount h = ground arith

module _ (rt : Runtime) (cs : Codecs) (program_id : Pubkey) (a : ParticipateAccounts) where
  -- A record of the market's verification of the user that has not expired.
  pub record IsVerified (clock : Clock) (w : World) (kyc : MarketUserKyc) : Type 0 where
    pub of_program : (w a.market_user_kyc.key).owner ≡ program_id
    pub is_stored : cs.market_user_kyc.try_from_slice (w a.market_user_kyc.key).bytes ≡ some kyc
    pub of_market : kyc.market ≡ a.market.key
    pub of_user : kyc.user_wallet ≡ a.user_wallet.key
    pub unexpired : clock.unix_timestamp ≤ℤ kyc.expiration

  check_kyc-ok :
      (clock : Clock) (w : World)
      → check_kyc rt cs program_id true a clock w ≡ ok tt
      → (kyc : MarketUserKyc) × IsVerified clock w kyc
  unfolding check_kyc
  check_kyc-ok clock w h =
      let (u, owner, h₁) = >>=-eq-ok (is_owner program_id (a.market_user_kyc ∷ []) w) _ h in
      let (kyc, stored, h₂) = >>=-eq-ok (read cs.market_user_kyc a.market_user_kyc w) _ h₁ in
      (kyc, ground arith)

  pub check_participation-ok :
      (p : Pool) (clock : Clock) (amount : ℕ) (w : World)
      → check_participation rt cs program_id a p clock amount w ≡ ok tt
      → (p.market ≡ a.market.key)
        × (a.account_collection.key ≡ p.account_collection)
        × (check_kyc rt cs program_id (is_kyc_required p.kyc_requirement) a clock w ≡ ok tt)
        × (check_amount p amount ≡ ok tt)
  unfolding check_participation
  check_participation-ok p clock amount w h = ground arith

  -- What a participation of `amount` in the pool `p` needs at the time of `clock`, in a store `w`.
  pub record IsAllowed (clock : Clock) (p : Pool) (amount : ℕ) (w : World) : Type 0 where
    pub pool_owner : (w a.pool.key).owner ≡ program_id
    pub market_owner : (w a.market.key).owner ≡ program_id
    pub is_stored : cs.pool.try_from_slice (w a.pool.key).bytes ≡ some p
    pub signed : a.user_wallet.is_signer ≡ true
    pub is_initialized : p.version ≢ 0
    pub after_start : p.time_start <ℤ clock.unix_timestamp
    pub before_finish : clock.unix_timestamp ≤ℤ p.time_finish
    pub of_market : p.market ≡ a.market.key
    pub into_collection : a.account_collection.key ≡ p.account_collection
    pub at_least : p.amount_investment_min ≤ amount
    pub at_most : amount ≤ p.amount_investment_max
    pub in_goal : (p.amount_collected + amount) % 2 ^ 64 ≤ p.goal_max_collected

  -- The account that marks a participation of the user in the stage has the key derived from the pool, the
  -- user and the stage; it was no program's in `w`, and is this program's in `created`.
  pub record IsMarked (system_program : Pubkey) (stage : Stage) (w created : World) : Type 0 where
    pub of_user :
        a.pool_user_authority.key
        ≡ (find_2key_program_address rt a.pool.key a.user_wallet.key program_id).0
    pub of_stage :
        rt.create_with_seed a.pool_user_authority.key (stage_seed stage) program_id
        ≡ ok a.user_pool_stage.key
    pub was_free : (w a.user_pool_stage.key).owner ≡ system_program
    pub is_taken : (created a.user_pool_stage.key).owner ≡ program_id

  create_stage_account-IsMarked :
      (system_program : Pubkey)
      → IsSystem rt
      → IsSystemFree system_program rt
      → (stage : Stage) (rent : Rent) (w created : World)
      → create_stage_account rt cs program_id a stage rent w ≡ ok created
      → IsMarked system_program stage w created
  unfolding create_stage_account
  create_stage_account-IsMarked system_program system free stage rent w created h =
      let user_key = (find_2key_program_address rt a.pool.key a.user_wallet.key program_id).0 in
      let (user, h₁) =
        require-eq-ok (user_key == a.pool_user_authority.key) (into wrong_user_pool_stage) _ h in
      let (k, derived, h₂) =
        >>=-eq-ok (rt.create_with_seed user_key (stage_seed stage) program_id) _ h₁ in
      let (same, h₃) =
        require-eq-ok (k == a.user_pool_stage.key) (into wrong_user_pool_stage) _ h₂ in
      let made = map_in_use-ok rt.account_already_in_use _ h₃ in
      let same_user = same-eq user_key a.pool_user_authority.key user in
      record {
        of_user = sym same_user;
        of_stage =
            ap (λ x. rt.create_with_seed x (stage_seed stage) program_id) (sym same_user)
            ∙ derived
            ∙ ap ok (same-eq k a.user_pool_stage.key same);
        was_free = free.was_free _ _ _ _ _ _ _ _ _ _ _ made;
        is_taken = system.creates _ _ _ _ _ _ _ _ _ _ _ made;
      }

  -- With a system program that makes a new account its owner's and refuses to create one that is in use,
  -- only what is allowed succeeds: the user signs, the pool and its market belong to the program and to
  -- each other, the sale is on, the amount is within the limits of one investment and its sum with the
  -- amount collected, taken modulo 2 ^ 64, is within the goal. The account under the key derived from the
  -- pool, the user and the current stage was not in use before, and has been created as the program's;
  -- where the pool asks for it, a record of the market in the store so reached verifies the user.
  pub participate-IsAllowed :
      (system_program : Pubkey)
      → IsSystem rt
      → IsSystemFree system_program rt
      → (input : Instruction.Participate) (w w' : World)
      → participate rt cs program_id a input w ≡ ok w'
      → (clock : Clock) × (rent : Rent) × (p : Pool) × (stage : Stage) × (created : World)
        × IsAllowed clock p input.amount w
        × (rt.clock_from a.clock (w a.clock.key) ≡ ok clock)
        × (get_current_stage p clock ≡ ok stage)
        × (create_stage_account rt cs program_id a stage rent w ≡ ok created)
        × IsMarked system_program stage w created
        × (p.kyc_requirement ≡ any_required → (kyc : MarketUserKyc) × IsVerified clock created kyc)
  participate-IsAllowed system_program system free input w w' h =
      let s = participate-Steps rt cs program_id a input w w' h in
      let (initialized, after) = was_started-ok s.pool s.clock.unix_timestamp s.started in
      let (market, collection, kyc, amount) =
        check_participation-ok s.pool s.clock input.amount s.created s.checked in
      let (least, most, room) = check_amount-ok s.pool input.amount amount in
      (
        s.clock,
        s.rent,
        s.pool,
        s.stage,
        s.created,
        record {
          pool_owner = ground (arith, s.owners);
          market_owner = ground (arith, s.owners);
          is_stored = ground (arith, s.pool_eq);
          signed = ground (arith, s.signer);
          is_initialized = initialized;
          after_start = after;
          before_finish = get_current_stage-ok s.pool s.clock s.stage_eq;
          of_market = market;
          into_collection = collection;
          at_least = least;
          at_most = most;
          in_goal = room;
        },
        s.clock_eq,
        s.stage_eq,
        s.created_eq,
        create_stage_account-IsMarked system_program system free s.stage s.rent w s.created
            s.created_eq,
        λ asked. check_kyc-ok s.clock s.created rw asked at kyc,
      )
