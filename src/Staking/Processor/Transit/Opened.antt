-- ===== src/Staking/Processor/Transit/Opened.antt =====
-- What a successful `stake_start` of staking/program/src/processor.rs leaves in the store.
use solstarter.Common.{ℕ, ℤ, ◌+◌, ◌≡◌, ◌≢◌, ◌+ℤ◌, refl, sym, ◌∙◌, true, some, [], ◌∷◌, ◌==◌, arith}
use solstarter.Solana.{
  World, AccountInfo, Clock, Runtime, Pubkey, TokenAccount, ok, >>=-eq-ok, require-eq-ok, data_len,
  account_not_rent_exempt, is_owner, is_signer, same_key, read, write, IsIsolated, IsToken,
  IsTokenInit, IsClock, IsLawful, IsKept, IsKept-trans, write-ok, write_keeps, call_keeps, read-ok,
  is_signer-ok, second_owner,
}
use solstarter.Staking.Error.{invalid_authority, wrong_account_specified, into}
use solstarter.Staking.Math.{error_add_i64}
use solstarter.Staking.Program.{find_key_program_address}
use solstarter.Staking.Invoke.{initialize_token_account, token_transfer_with_user_authority}
use solstarter.Staking.State.{
  StakePool, PoolTransit, TransitDirection, StateVersion, incoming, v1, check_uninitialized,
  check_initialized,
}
use solstarter.Staking.Processor.Shared.{Codecs, StakeStartInput}
use solstarter.Staking.Processor.Stake.{StakeStartAccounts, stake_start}

-- An uninitialized transit's record becomes that of a transit of the user given, for the period given from
-- the time of `clock`, with its tokens in the account given; what was claimed stays as it was.
pub record IsOpened (cs : Codecs) (program_id : Pubkey) (direction : TransitDirection)
    (account pool user tokens : Pubkey) (clock : Clock) (period : ℤ) (w w' : World)
    (was : PoolTransit) : Type 0 where
  pub before : cs.pool_transit.try_from_slice (w account).bytes ≡ some was
  pub uninitialized : was.version ≡ StateVersion.uninitialized
  pub owned : (w' account).owner ≡ program_id
  pub opened :
      cs.pool_transit.try_from_slice (w' account).bytes
      ≡ some (record was {
        version = v1;
        direction = direction;
        pool = pool;
        token_account_sos = tokens;
        user_wallet = user;
        transit_from = clock.unix_timestamp;
        transit_until = clock.unix_timestamp +ℤ period;
      })

was_uninitialized :
    (v : StateVersion) → check_uninitialized v ≡ ok tt → v ≡ StateVersion.uninitialized
unfolding check_uninitialized
was_uninitialized StateVersion.uninitialized h = refl
was_uninitialized v1 h = cc

until-eq : (a b : ℤ) {c : ℤ} → error_add_i64 a b ≡ ok c → c ≡ a +ℤ b
unfolding error_add_i64
until-eq a b h = ground arith

-- The last steps of both, from a store that keeps the record's account.
pub write-IsOpened :
    (cs : Codecs) (lawful : IsLawful cs.pool_transit) (program_id : Pubkey)
    (direction : TransitDirection) (account : AccountInfo) (pool user tokens : Pubkey)
    (clock : Clock) (period until : ℤ) (w v w' : World) (was : PoolTransit)
    → (w account.key).owner ≡ program_id
    → IsKept w v account.key
    → read cs.pool_transit account v ≡ ok was
    → check_uninitialized was.version ≡ ok tt
    → error_add_i64 clock.unix_timestamp period ≡ ok until
    → write cs.pool_transit
        (record was {
          version = v1;
          direction = direction;
          pool = pool;
          token_account_sos = tokens;
          user_wallet = user;
          transit_from = clock.unix_timestamp;
          transit_until = until;
        })
        account
        v
      ≡ ok w'
    → IsOpened cs program_id direction account.key pool user tokens clock period w w' was
write-IsOpened cs lawful program_id direction account pool user tokens clock period until w v w' was
      owned kept found fresh sum put =
    let new = record was {
      version = v1;
      direction = direction;
      pool = pool;
      token_account_sos = tokens;
      user_wallet = user;
      transit_from = clock.unix_timestamp;
      transit_until = until;
    } in
    let (b, encoded, written, owner) = write-ok cs.pool_transit new account v put in
    let stored = read-ok cs.pool_transit account v found in
    record {
      before = rw (sym kept.same_bytes) stored;
      uninitialized = was_uninitialized was.version fresh;
      owned = owner ∙ kept.same_owner ∙ owned;
      opened =
          rw (written, sym (until-eq clock.unix_timestamp period sum))
            (lawful.reads_back was new (v account.key).bytes b stored encoded);
    }

module _ (system_program token_program staking_program : Pubkey) (rt : Runtime)
    (isolated : IsIsolated system_program token_program staking_program rt) (cs : Codecs)
    (lawful : IsLawful cs.pool_transit) (program_id : Pubkey)
    (not_token : program_id ≢ token_program) where
  -- On a runtime where only its owner changes an account and the clock is read from its account's data,
  -- with a token program that initializes accounts and moves what it is told to, a program other than
  -- that, a codec that reads back what it writes and a clock that the token program does not own: a
  -- successful `stake_start` into another token account than the user's and than the transit's record is
  -- signed by the user, opens an incoming transit of that user for the period of the pool, from the time
  -- that the clock shows at the start of the instruction, and leaves at least the amount given in its
  -- account.
  pub stake_start-IsOpened :
      (token : IsToken rt) (init : IsTokenInit rt) (clocks : IsClock rt) (a : StakeStartAccounts)
      (input : StakeStartInput) (w w' : World)
      → (w a.clock.key).owner ≢ token_program
      → a.user_token_account_sos.key ≢ a.pool_transit_token_account_sos.key
      → a.pool_transit.key ≢ a.pool_transit_token_account_sos.key
      → stake_start rt cs program_id a input w ≡ ok w'
      → (p : StakePool) × (was : PoolTransit) × (clock : Clock) × (t : TokenAccount) × (more : ℕ)
        × (cs.stake_pool.try_from_slice (w a.pool.key).bytes ≡ some p)
        × (a.user_wallet.is_signer ≡ true)
        × (rt.clock_from a.clock (w a.clock.key) ≡ ok clock)
        × IsOpened cs program_id incoming a.pool_transit.key a.pool.key a.user_wallet.key
            a.pool_transit_token_account_sos.key clock p.transit_incoming w w' was
        × (rt.unpack_account (w' a.pool_transit_token_account_sos.key).bytes ≡ ok t)
        × (t.amount ≡ more + input.amount)
  unfolding stake_start
  stake_start-IsOpened token init clocks a input w w' clock_apart ends apart h =
      let (_, owners, h₁) = >>=-eq-ok (is_owner program_id (a.pool ∷ a.pool_transit ∷ []) w) _ h in
      let (_, signed, h₂) = >>=-eq-ok (is_signer a.user_wallet) _ h₁ in
      let (p, read_p, h₃) = >>=-eq-ok (read cs.stake_pool a.pool w) _ h₂ in
      let (_, _, h₄) = >>=-eq-ok (check_initialized p.version) _ h₃ in
      let (_, _, h₅) =
        >>=-eq-ok
          (same_key p.token_account_sos a.pool_token_account_sos (into wrong_account_specified)) _
          h₄ in
      let (sos, _, h₆) =
        >>=-eq-ok (rt.unpack_account_from_slice (w a.pool_token_account_sos.key).bytes) _ h₅ in
      let (_, h₇) =
        require-eq-ok (sos.mint == a.mint_sos.key) (into wrong_account_specified) _ h₆ in
      let (_, h₈) =
        require-eq-ok
          (a.pool_authority.key == (find_key_program_address rt a.pool.key program_id).0)
          (into invalid_authority) _ h₇ in
      let (w₁, made, h₉) =
        >>=-eq-ok
          (initialize_token_account rt a.pool_transit_token_account_sos a.mint_sos a.pool_authority
            a.rent w)
          _ h₈ in
      let (w₂, sent, g₁) =
        >>=-eq-ok
          (token_transfer_with_user_authority rt a.user_token_account_sos
            a.pool_transit_token_account_sos a.user_wallet input.amount w₁)
          _ h₉ in
      let (rent, _, g₂) = >>=-eq-ok (rt.rent_from a.rent (w₂ a.rent.key)) _ g₁ in
      let (_, g₃) =
        require-eq-ok (rent.is_exempt (w₂ a.pool_transit.key).lamports (data_len w₂ a.pool_transit))
          account_not_rent_exempt _ g₂ in
      let (was, found, g₄) = >>=-eq-ok (read cs.pool_transit a.pool_transit w₂) _ g₃ in
      let (_, fresh, g₅) = >>=-eq-ok (check_uninitialized was.version) _ g₄ in
      let (clock, now, g₆) = >>=-eq-ok (rt.clock_from a.clock (w₂ a.clock.key)) _ g₅ in
      let (until, sum, put) =
        >>=-eq-ok (error_add_i64 clock.unix_timestamp p.transit_incoming) _ g₆ in
      let owned = second_owner program_id a.pool a.pool_transit w owners in
      let kept₁ =
        call_keeps system_program token_program staking_program rt isolated program_id _ _ _ w w₁
          a.pool_transit.key (λ e. not_token (sym e)) owned made in
      let kept₂ =
        call_keeps system_program token_program staking_program rt isolated program_id _ _ _ w₁ w₂
          a.pool_transit.key (λ e. not_token (sym e)) (kept₁.same_owner ∙ owned) sent in
      let kept = IsKept-trans w w₁ w₂ a.pool_transit.key kept₁ kept₂ in
      let still₁ =
        call_keeps system_program token_program staking_program rt isolated (w a.clock.key).owner _
          _ _ w w₁ a.clock.key (λ e. clock_apart (sym e)) refl made in
      let still₂ =
        call_keeps system_program token_program staking_program rt isolated (w a.clock.key).owner _
          _ _ w₁ w₂ a.clock.key (λ e. clock_apart (sym e)) still₁.same_owner sent in
      let still = IsKept-trans w w₁ w₂ a.clock.key still₁ still₂ in
      let (t₀, empty, _) = init.initializes _ _ _ _ _ w w₁ made in
      let (t, after, total) = token.credits _ _ _ _ _ _ _ w₁ w₂ t₀ sent ends empty in
      let same =
        write_keeps cs.pool_transit _ a.pool_transit w₂ a.pool_transit_token_account_sos.key put
          apart in
      (
        p,
        was,
        clock,
        t,
        t₀.amount,
        read-ok cs.stake_pool a.pool w read_p,
        is_signer-ok a.user_wallet signed,
        clocks.reads_data a.clock _ _ (sym still.same_bytes) ∙ now,
        write-IsOpened cs lawful program_id incoming a.pool_transit a.pool.key a.user_wallet.key
            a.pool_transit_token_account_sos.key clock p.transit_incoming until w w₂ w' was owned
            kept found fresh sum put,
        rw same after,
        total,
      )
