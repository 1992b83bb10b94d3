-- ===== src/Ido/Processor/Start/Stored.antt =====
-- What a successful `start_pool` of ido/program/src/processor.rs has checked and leaves in the store.
use solstarter.Common.{
  ◌*◌, ◌≤◌, ◌≤ℤ◌, ℤ, ◌≡◌, ◌≢◌, ◌⊎◌, sym, ap, ◌∙◌, true, false, some, List, [], ◌∷◌, sum, dot, ltb_ℤ,
  ◌==◌, ◌||◌, arith,
}
use solstarter.Solana
use solstarter.Solana.{
  Seed, World, AccountInfo, Codec, Clock, Runtime, Pubkey, ok, >>=-eq-ok, require-eq-ok,
  fail_if-eq-ok, is_owner, is_signer, read_unwrap, write, IsIsolated, IsLawful, write-ok,
  write_keeps, call_keeps, read_unwrap-ok, is_signer-ok, same-eq, second_owner,
}
use solstarter.Staking.State.{StakePool}
use solstarter.Ido.Error.{
  invalid_pool_time_frame, stake_pool_must_belong_to_market, wrong_market_address_for_current_pool,
  market_or_pool_owner_required, into,
}
use solstarter.Ido.State.{Market, Pool, check_initialized}
use solstarter.Ido.State.Sale.{precision, set_tier_allocations}
use solstarter.Ido.State.Allocations.{
  allocations_of, times, set_tier_allocations-eq, set_tier_allocations_never_oversells,
}
use solstarter.Ido.Processor.Shared.{Codecs}
use solstarter.Ido.Processor.Start.{StartPoolAccounts, start_pool}

-- The pool `p'` is `p` with the allocations that the counts of a stake pool give, which come to no more
-- than the goal buys.
pub record IsAllocated (p p' : Pool) (s : StakePool) : Type 0 where
  pub allocated :
      let allocations = allocations_of p (dot s.tier_balance s.tier_users) s.tier_balance in
      p'
      ≡ record p { tier_allocation = allocations; tier_remaining = times allocations s.tier_users }
  pub never_oversells : sum p'.tier_remaining * p.price ≤ p.goal_max_collected * precision

set_tier_allocations-IsAllocated :
    (p p' : Pool) (s : StakePool)
    → set_tier_allocations p s.tier_users s.tier_balance ≡ ok p'
    → IsAllocated p p' s
set_tier_allocations-IsAllocated p p' s h = record {
  allocated = set_tier_allocations-eq p s.tier_users s.tier_balance h;
  never_oversells = set_tier_allocations_never_oversells p s.tier_users s.tier_balance h;
}

in_frame :
    (now start finish : ℤ)
    → (ltb_ℤ now start || ltb_ℤ finish now) ≡ false
    → (start ≤ℤ now) × (now ≤ℤ finish)
in_frame now start finish h = ground arith

one_owner : (p m owner : Pubkey) → (p == owner || m == owner) ≡ true → (p ≡ owner) ⊎ (m ≡ owner)
one_owner p m owner h = ground arith

module _ (rt : Runtime) (cs : Codecs) (program_id : Pubkey) (a : StartPoolAccounts)
    (w w' : World) where
  -- The steps of a successful `start_pool`, with their results.
  pub record Steps : Type 0 where
    pub clock : Clock
    pub market : Market
    pub pool : Pool
    pub pool' : Pool
    pub stake_pool : StakePool
    pub called : World
    pub written : World
    pub accounts : List AccountInfo
    pub seeds : List Seed
    pub owners : is_owner program_id (a.market ∷ a.pool ∷ []) w ≡ ok tt
    pub signed : is_signer a.market_or_pool_owner ≡ ok tt
    pub read_p : read_unwrap cs.pool a.pool w ≡ ok pool
    pub now : rt.clock_from a.clock (w a.clock.key) ≡ ok clock
    pub in_time :
        (ltb_ℤ clock.unix_timestamp pool.time_start || ltb_ℤ pool.time_finish clock.unix_timestamp)
        ≡ false
    pub read_m : read_unwrap cs.market a.market w ≡ ok market
    pub staked : (market.stake_pool == a.stake_pool.key) ≡ true
    pub of_market : (pool.market == a.market.key) ≡ true
    pub owner :
        (pool.owner == a.market_or_pool_owner.key || market.owner == a.market_or_pool_owner.key)
        ≡ true
    pub read_s : read_unwrap cs.stake_pool a.stake_pool w ≡ ok stake_pool
    pub allocated :
        set_tier_allocations pool stake_pool.tier_users stake_pool.tier_balance ≡ ok pool'
    pub call :
        rt.invoke_signed
          (Solana.start_pool a.stake_pool.key a.market_authority.key pool.time_finish)
          accounts
          seeds
          w
        ≡ ok called
    pub put_m : write cs.market market a.market called ≡ ok written
    pub put : write cs.pool pool' a.pool written ≡ ok w'

  pub start_pool-Steps : start_pool rt cs program_id a w ≡ ok w' → Steps
  unfolding start_pool
  start_pool-Steps h =
      let (_, owners, h₁) = >>=-eq-ok (is_owner program_id (a.market ∷ a.pool ∷ []) w) _ h in
      let (_, signed, h₂) = >>=-eq-ok (is_signer a.market_or_pool_owner) _ h₁ in
      let (p, read_p, h₃) = >>=-eq-ok (read_unwrap cs.pool a.pool w) _ h₂ in
      let (_, _, h₄) = >>=-eq-ok (check_initialized p.version) _ h₃ in
      let (clock, now, h₅) = >>=-eq-ok (rt.clock_from a.clock (w a.clock.key)) _ h₄ in
      let (in_time, h₆) =
        fail_if-eq-ok
          (ltb_ℤ clock.unix_timestamp p.time_start || ltb_ℤ p.time_finish clock.unix_timestamp)
          (into invalid_pool_time_frame) _ h₅ in
      let (m, read_m, h₇) = >>=-eq-ok (read_unwrap cs.market a.market w) _ h₆ in
      let (_, _, h₈) = >>=-eq-ok (check_initialized m.version) _ h₇ in
      let (staked, h₉) =
        require-eq-ok (m.stake_pool == a.stake_pool.key) (into stake_pool_must_belong_to_market) _
          h₈ in
      let (of_market, g₁) =
        require-eq-ok (p.market == a.market.key) (into wrong_market_address_for_current_pool) _
          h₉ in
      let (owner, g₂) =
        require-eq-ok
          (p.owner == a.market_or_pool_owner.key || m.owner == a.market_or_pool_owner.key)
          (into market_or_pool_owner_required) _ g₁ in
      let (s, read_s, g₃) = >>=-eq-ok (read_unwrap cs.stake_pool a.stake_pool w) _ g₂ in
      let (p', allocated, g₄) =
        >>=-eq-ok (set_tier_allocations p s.tier_users s.tier_balance) _ g₃ in
      let (w₁, called, g₅) = >>=-eq-ok (rt.invoke_signed _ _ _ w) _ g₄ in
      let (w₂, put_m, put) = >>=-eq-ok (write cs.market m a.market w₁) _ g₅ in
      record {
        clock = clock;
        market = m;
        pool = p;
        pool' = p';
        stake_pool = s;
        called = w₁;
        written = w₂;
        accounts = a.stake_pool ∷ a.market_authority ∷ a.clock ∷ [];
        seeds = _;
        owners = owners;
        signed = signed;
        read_p = read_p;
        now = now;
        in_time = in_time;
        read_m = read_m;
        staked = staked;
        of_market = of_market;
        owner = owner;
        read_s = read_s;
        allocated = allocated;
        call = called;
        put_m = put_m;
        put = put;
      }

module _ (system_program token_program staking_program : Pubkey) (rt : Runtime)
    (isolated : IsIsolated system_program token_program staking_program rt) (cs : Codecs)
    (lawful : IsLawful cs.pool) (program_id : Pubkey)
    (not_staking : program_id ≢ staking_program) where
  -- On a runtime where only its owner changes an account, with a program other than the staking program
  -- and a codec that reads back what it writes: a successful `start_pool` with different accounts for
  -- market and pool is signed by the owner of one of these, falls into the time frame of the pool, and
  -- leaves in the pool's account, which the program still owns, the pool with the allocations by the
  -- counts of the market's stake pool, whatever has been sold before.
  pub start_pool-IsAllocated :
      (a : StartPoolAccounts) (w w' : World)
      → a.market.key ≢ a.pool.key
      → start_pool rt cs program_id a w ≡ ok w'
      → (clock : Clock) × (m : Market) × (p p' : Pool) × (s : StakePool) × (rt.clock_from a.clock
            (w a.clock.key)
          ≡ ok clock)
        × (cs.market.try_from_slice (w a.market.key).bytes ≡ some m)
        × (cs.pool.try_from_slice (w a.pool.key).bytes ≡ some p)
        × (cs.stake_pool.try_from_slice (w a.stake_pool.key).bytes ≡ some s)
        × (a.market_or_pool_owner.is_signer ≡ true)
        × ((p.owner ≡ a.market_or_pool_owner.key) ⊎ (m.owner ≡ a.market_or_pool_owner.key))
        × (p.time_start ≤ℤ clock.unix_timestamp)
        × (clock.unix_timestamp ≤ℤ p.time_finish)
        × (p.market ≡ a.market.key)
        × (m.stake_pool ≡ a.stake_pool.key)
        × ((w' a.pool.key).owner ≡ program_id)
        × (cs.pool.try_from_slice (w' a.pool.key).bytes ≡ some p')
        × IsAllocated p p' s
  start_pool-IsAllocated a w w' apart h =
      let s = start_pool-Steps rt cs program_id a w w' h in
      let owned : (w a.pool.key).owner ≡ program_id =
        second_owner program_id a.market a.pool w s.owners in
      let stored : cs.pool.try_from_slice (w a.pool.key).bytes ≡ some s.pool =
        read_unwrap-ok cs.pool a.pool w s.read_p in
      let kept =
        call_keeps system_program token_program staking_program rt isolated program_id _ _ _ w
          s.called a.pool.key (λ e. not_staking (sym e)) owned s.call in
      let same = write_keeps cs.market s.market a.market s.called a.pool.key s.put_m apart in
      let (b, encoded, written, same_owner) = write-ok cs.pool s.pool' a.pool s.written s.put in
      let (starts, finishes) =
        in_frame s.clock.unix_timestamp s.pool.time_start s.pool.time_finish s.in_time in
      (
        s.clock,
        s.market,
        s.pool,
        s.pool',
        s.stake_pool,
        s.now,
        read_unwrap-ok cs.market a.market w s.read_m,
        stored,
        read_unwrap-ok cs.stake_pool a.stake_pool w s.read_s,
        is_signer-ok a.market_or_pool_owner s.signed,
        one_owner s.pool.owner s.market.owner a.market_or_pool_owner.key s.owner,
        starts,
        finishes,
        same-eq s.pool.market a.market.key s.of_market,
        same-eq s.market.stake_pool a.stake_pool.key s.staked,
        same_owner ∙ ap (λ x. x.owner) same ∙ kept.same_owner ∙ owned,
        rw written (
            lawful.reads_back s.pool s.pool' (s.written a.pool.key).bytes b
              (rw (ap (λ x. x.bytes) same ∙ kept.same_bytes) stored) encoded),
        set_tier_allocations-IsAllocated s.pool s.pool' s.stake_pool s.allocated,
      )
