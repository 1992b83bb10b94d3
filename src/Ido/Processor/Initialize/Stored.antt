-- ===== src/Ido/Processor/Initialize/Stored.antt =====
-- What a successful `initialize_pool` of ido/program/src/processor.rs has checked and leaves in the store.
use solstarter.Common.{
  ℕ, ◌<◌, ◌^◌, ◌-ℤ◌, IsI64, ◌≡◌, ◌≢◌, refl, sym, ◌∙◌, ◌==◌, true, Option, none, some, [], ◌∷◌, sum,
  arith,
}
use solstarter.Solana.{
  World, AccountInfo, Clock, Runtime, Pubkey, ok, >>=-eq-ok, require-eq-ok, fail_if-eq-ok, is_owner,
  is_signer, read, read_unwrap, data_len, account_not_rent_exempt, uninitialized_account,
  IsIsolated, IsLawful, IsKept, IsKept-trans, write-ok, call_keeps, read-ok, read_unwrap-ok,
  is_signer-ok, same-eq, first_owner,
}
use solstarter.Ido.Error.{wrong_token_mint, wrong_market_owner, into}
use solstarter.Staking.Program.{find_key_program_address}
use solstarter.Ido.Instruction.{InitializePool, validate}
use solstarter.Ido.Instruction.Validate.{IsSound, validate_iff}
use solstarter.Ido.Invoke.{initialize_token_account, initialize_mint}
use solstarter.Ido.State.{
  Market, Pool, MintWhitelist, check_uninitialized, check_initialized, default_whitelist_key,
  uninitialized_version,
}
use solstarter.Ido.Processor.Shared.{Codecs, validate_market_owner}
use solstarter.Ido.Processor.Initialize.{
  InitializePoolAccounts, initialize_pool, make_whitelist, new_pool,
}

-- A pool's whitelist mint is the account given for it, if one is.
abbrev pub whitelist_of : Option AccountInfo → MintWhitelist
whitelist_of none = MintWhitelist.none default_whitelist_key
whitelist_of (some mint) = MintWhitelist.key mint.key

-- The market of the account given names the owner given, who has signed.
pub record IsMarketOf (cs : Codecs) (a : InitializePoolAccounts) (w : World) (m : Market)
    : Type 0 where
  pub stored : cs.market.try_from_slice (w a.market.key).bytes ≡ some m
  pub of_owner : a.market_owner.key ≡ m.owner
  pub signed : a.market_owner.is_signer ≡ true

-- The pool `new` has the terms of `input`, the accounts of `a` and the bump seed given, and what has been
-- collected, sold and allocated is as in `was`.
pub record IsPoolOf (a : InitializePoolAccounts) (input : InitializePool) (bump : ℕ)
    (was new : Pool) : Type 0 where
  pub of_version : new.version ≡ 1
  pub of_market : new.market ≡ a.market.key
  pub of_collection : new.account_collection ≡ a.account_collection.key
  pub of_distribution : new.account_distribution ≡ a.account_distribution.key
  pub of_mint : new.mint_pool ≡ a.mint_pool.key
  pub of_whitelist : new.mint_whitelist ≡ whitelist_of a.mint_whitelist
  pub of_kyc : new.kyc_requirement ≡ input.kyc_requirement
  pub of_price : new.price ≡ input.price
  pub of_goal_max : new.goal_max_collected ≡ input.goal_max
  pub of_goal_min : new.goal_min_collected ≡ input.goal_min
  pub of_amount_min : new.amount_investment_min ≡ input.amount_min
  pub of_amount_max : new.amount_investment_max ≡ input.amount_max
  pub of_start : new.time_start ≡ input.time_start
  pub of_finish : new.time_finish ≡ input.time_finish
  pub of_times : new.time_table ≡ input.time_table
  pub of_owner : new.owner ≡ input.pool_owner
  pub of_authority : new.authority ≡ a.pool_authority.key
  pub of_bump : new.authority_bump_seed ≡ bump
  pub collected : new.amount_collected ≡ was.amount_collected
  pub distributed : new.amount_to_distribute ≡ was.amount_to_distribute
  pub allocated : new.tier_allocation ≡ was.tier_allocation
  pub remaining : new.tier_remaining ≡ was.tier_remaining

validate_market_owner-IsMarketOf :
    (cs : Codecs) (a : InitializePoolAccounts) (w : World) {m : Market}
    → validate_market_owner cs a.market a.market_owner w ≡ ok m
    → IsMarketOf cs a w m
unfolding validate_market_owner
validate_market_owner-IsMarketOf cs a w {m} h =
    let (m₀, read_m, h₁) = >>=-eq-ok (read_unwrap cs.market a.market w) _ h in
    let (_, _, h₂) = >>=-eq-ok (check_initialized m₀.version) _ h₁ in
    let (owner, h₃) =
      require-eq-ok (a.market_owner.key == m₀.owner) (into wrong_market_owner) _ h₂ in
    let (_, signed, h₄) = >>=-eq-ok (is_signer a.market_owner) _ h₃ in
    let same : m₀ ≡ m = ground arith in
    record {
      stored = rw (← same) (read_unwrap-ok cs.market a.market w read_m);
      of_owner = rw (← same) (same-eq a.market_owner.key m₀.owner owner);
      signed = is_signer-ok a.market_owner signed;
    }

was_uninitialized :
    (version : ℕ) → check_uninitialized version ≡ ok tt → version ≡ uninitialized_version
unfolding check_uninitialized
was_uninitialized version h = ground arith

module _ (system_program token_program staking_program : Pubkey) (rt : Runtime)
    (isolated : IsIsolated system_program token_program staking_program rt) (cs : Codecs)
    (lawful : IsLawful cs.pool) (program_id : Pubkey) (not_token : program_id ≢ token_program) where
  make_whitelist-eq :
      (mint : Option AccountInfo) (a : InitializePoolAccounts) (w : World) {found : MintWhitelist}
      {w' : World}
      → (w a.pool.key).owner ≡ program_id
      → make_whitelist rt cs program_id mint a w ≡ ok (found, w')
      → (found ≡ whitelist_of mint) × IsKept w w' a.pool.key
  unfolding make_whitelist
  make_whitelist-eq none a w owned h =
      (ground arith, record { same_owner = ground arith; same_bytes = ground arith })
  make_whitelist-eq (some mint) a w {found} {w'} owned h =
      let (v, made, h₁) = >>=-eq-ok (initialize_mint rt mint a.pool_authority 0 a.rent w) _ h in
      let kept =
        call_keeps system_program token_program staking_program rt isolated program_id _ _ _ w v
          a.pool.key (λ e. not_token (sym e)) owned made in
      let same : v ≡ w' = ground arith in (ground arith, rw (← same) kept)

  -- On a runtime where only its owner changes an account, with a program other than the token program
  -- and a codec that reads back what it writes: a successful `initialize_pool`, with a time table that
  -- does not overflow and a length of the sale that fits an `i64`, has sound terms at the time of the
  -- clock, is signed by the owner of the market, found a pool that was not initialized, and leaves in its
  -- account, which the program still owns, a pool of which every field is the term, the account, the key
  -- or the whitelist's mint given, and what was collected, sold and allocated is as it was.
  pub initialize_pool-IsSound :
      (a : InitializePoolAccounts) (input : InitializePool) (w w' : World)
      → sum input.time_table < 2 ^ 32
      → IsI64 (input.time_finish -ℤ input.time_start)
      → initialize_pool rt cs program_id a input w ≡ ok w'
      → (clock : Clock) × (m : Market) × (was : Pool) × (new : Pool) × (rt.clock_from a.clock
            (w a.clock.key)
          ≡ ok clock)
        × IsSound input clock.unix_timestamp
        × IsMarketOf cs a w m
        × (cs.pool.try_from_slice (w a.pool.key).bytes ≡ some was)
        × (was.version ≡ uninitialized_version)
        × ((w' a.pool.key).owner ≡ program_id)
        × (cs.pool.try_from_slice (w' a.pool.key).bytes ≡ some new)
        × IsPoolOf a input (find_key_program_address rt a.pool.key program_id).1 was new
  unfolding initialize_pool
  initialize_pool-IsSound a input w w' small fits h =
      let (_, owners, h₁) = >>=-eq-ok (is_owner program_id (a.pool ∷ a.market ∷ []) w) _ h in
      let (rent, _, h₂) = >>=-eq-ok (rt.rent_from a.rent (w a.rent.key)) _ h₁ in
      let (clock, now, h₃) = >>=-eq-ok (rt.clock_from a.clock (w a.clock.key)) _ h₂ in
      let (_, valid, h₄) = >>=-eq-ok (validate input clock) _ h₃ in
      let (was, found, h₅) = >>=-eq-ok (read cs.pool a.pool w) _ h₄ in
      let (_, fresh, h₆) = >>=-eq-ok (check_uninitialized was.version) _ h₅ in
      let (_, h₇) =
        require-eq-ok (rent.is_exempt (w a.pool.key).lamports (data_len w a.pool))
          account_not_rent_exempt _ h₆ in
      let (m, owner_ok, h₈) = >>=-eq-ok (validate_market_owner cs a.market a.market_owner w) _ h₇ in
      let (_, h₉) =
        fail_if-eq-ok (a.mint_collection.key == a.mint_distribution.key) (into wrong_token_mint) _
          h₈ in
      let (collection, _, g₁) = >>=-eq-ok (rt.unpack_mint (w a.mint_collection.key).bytes) _ h₉ in
      let (_, g₂) = require-eq-ok collection.is_initialized uninitialized_account _ g₁ in
      let (distribution, _, g₃) =
        >>=-eq-ok (rt.unpack_mint (w a.mint_distribution.key).bytes) _ g₂ in
      let (_, g₄) = require-eq-ok distribution.is_initialized uninitialized_account _ g₃ in
      let (w₁, made₁, g₅) =
        >>=-eq-ok
          (initialize_token_account rt a.account_collection a.mint_collection a.pool_authority
            a.rent w)
          _ g₄ in
      let (w₂, made₂, g₆) =
        >>=-eq-ok
          (initialize_token_account rt a.account_distribution a.mint_distribution a.pool_authority
            a.rent w₁)
          _ g₅ in
      let (w₃, made₃, g₇) =
        >>=-eq-ok (initialize_mint rt a.mint_pool a.pool_authority collection.decimals a.rent w₂) _
          g₆ in
      let ((listed, w₄), made₄, put) =
        >>=-eq-ok (make_whitelist rt cs program_id a.mint_whitelist a w₃) _ g₇ in
      let owned = first_owner program_id a.pool (a.market ∷ []) w owners in
      let step : (u v : World)
          → IsKept w u a.pool.key
          → IsKept u v a.pool.key
          → IsKept w v a.pool.key =
        λ u v p q. IsKept-trans w u v a.pool.key p q in
      let kept₁ =
        call_keeps system_program token_program staking_program rt isolated program_id _ _ _ w w₁
          a.pool.key (λ e. not_token (sym e)) owned made₁ in
      let kept₂ = step w₁ w₂ kept₁ (
        call_keeps system_program token_program staking_program rt isolated program_id _ _ _ w₁ w₂
          a.pool.key (λ e. not_token (sym e)) (kept₁.same_owner ∙ owned) made₂) in
      let kept₃ = step w₂ w₃ kept₂ (
        call_keeps system_program token_program staking_program rt isolated program_id _ _ _ w₂ w₃
          a.pool.key (λ e. not_token (sym e)) (kept₂.same_owner ∙ owned) made₃) in
      let (is_listed, kept₄) =
        make_whitelist-eq a.mint_whitelist a w₃ (kept₃.same_owner ∙ owned) made₄ in
      let kept = step w₃ w₄ kept₃ kept₄ in
      let new =
        new_pool rt cs program_id a input was listed
          (find_key_program_address rt a.pool.key program_id).1 in
      let (b, encoded, written, owner) = write-ok cs.pool new a.pool w₄ put in
      let stored = read-ok cs.pool a.pool w found in
      let pool_is : IsPoolOf a input (find_key_program_address rt a.pool.key program_id).1 was new =
        record {
          of_version = refl;
          of_market = refl;
          of_collection = refl;
          of_distribution = refl;
          of_mint = refl;
          of_whitelist = is_listed;
          of_kyc = refl;
          of_price = refl;
          of_goal_max = refl;
          of_goal_min = refl;
          of_amount_min = refl;
          of_amount_max = refl;
          of_start = refl;
          of_finish = refl;
          of_times = refl;
          of_owner = refl;
          of_authority = refl;
          of_bump = refl;
          collected = refl;
          distributed = refl;
          allocated = refl;
          remaining = refl;
        } in
      (
        clock,
        m,
        was,
        new,
        now,
        (validate_iff input clock small fits).0 valid,
        validate_market_owner-IsMarketOf cs a w owner_ok,
        stored,
        was_uninitialized was.version fresh,
        owner ∙ kept.same_owner ∙ owned,
        rw written
            (lawful.reads_back was new (w₄ a.pool.key).bytes b (rw kept.same_bytes stored) encoded),
        pool_is,
      )
