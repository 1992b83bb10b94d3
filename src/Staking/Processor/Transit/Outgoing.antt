-- ===== src/Staking/Processor/Transit/Outgoing.antt =====
-- What a successful `unstake_start` of staking/program/src/processor.rs leaves in the store.
use solstarter.Common.{ℤ, ◌≡◌, ◌≢◌, sym, ap, ◌∙◌, some, [], ◌∷◌, ◌==◌, arith}
use solstarter.Solana.{
  World, Clock, Runtime, Pubkey, Bytes, Codec, ok, >>=-eq-ok, require-eq-ok, is_owner, same_key,
  read, IsIsolated, IsLawful, IsKept, IsKept-trans, call_keeps, read-ok, same-eq, first_owner,
  second_owner,
}
use solstarter.Staking.Error.{wrong_account_specified, into}
use solstarter.Staking.Math.{error_add_i64}
use solstarter.Staking.Program.{is_derived}
use solstarter.Staking.Invoke.{
  initialize_token_account, token_transfer_program_authority, burn_tokens_with_user_authority,
}
use solstarter.Staking.State.{StakePool, PoolTransit, outgoing, check_uninitialized}
use solstarter.Staking.Processor.Shared.{Codecs, UnstakeStartInput}
use solstarter.Staking.Processor.Unstake.{UnstakeStartAccounts, unstake_start}
use solstarter.Staking.Processor.Transit.Opened.{IsOpened, write-IsOpened}

same_read :
    {A : Type 0} (codec : Codec A) (b b' : Bytes) {v v' : A}
    → b' ≡ b
    → codec.try_from_slice b ≡ some v
    → codec.try_from_slice b' ≡ some v'
    → v' ≡ v
same_read codec b b' e h h' = ground (arith, ap codec.try_from_slice e)

sum_at :
    (now : ℤ) (p p' : StakePool) {until : ℤ}
    → p' ≡ p
    → error_add_i64 now p'.transit_outgoing ≡ ok until
    → error_add_i64 now p.transit_outgoing ≡ ok until
sum_at now p p' e h = cc

module _ (system_program token_program staking_program : Pubkey) (rt : Runtime)
    (isolated : IsIsolated system_program token_program staking_program rt) (cs : Codecs)
    (lawful : IsLawful cs.pool_transit) (program_id : Pubkey)
    (not_token : program_id ≢ token_program) where
  -- On a runtime where only its owner changes an account, with a program other than the token program and
  -- a codec that reads back what it writes: a successful `unstake_start` opens an outgoing transit of the
  -- user given for the period of the pool, from the time of the clock, in the record of an account that was
  -- not initialized.
  pub unstake_start-IsOpened :
      (a : UnstakeStartAccounts) (input : UnstakeStartInput) (w w' : World)
      → unstake_start rt cs program_id a input w ≡ ok w'
      → (p : StakePool) × (was : PoolTransit) × (clock : Clock) × (cs.stake_pool.try_from_slice
            (w a.pool.key).bytes
          ≡ some p)
        × (p.pool_mint_xsos ≡ a.mint_xsos.key)
        × (rt.clock_from a.clock (w a.clock.key) ≡ ok clock)
        × IsOpened cs program_id outgoing a.pool_transit.key a.pool.key a.user_wallet.key
            a.pool_transit_token_account_sos.key clock p.transit_outgoing w w' was
  unfolding unstake_start
  unstake_start-IsOpened a input w w' h =
      let (_, owners, h₁) = >>=-eq-ok (is_owner program_id (a.pool ∷ a.pool_transit ∷ []) w) _ h in
      let (p, read_p, h₂) = >>=-eq-ok (read cs.stake_pool a.pool w) _ h₁ in
      let (mint, h₃) =
        require-eq-ok (p.pool_mint_xsos == a.mint_xsos.key) (into wrong_account_specified) _ h₂ in
      let (_, _, h₄) =
        >>=-eq-ok
          (same_key p.token_account_sos a.pool_token_account_sos (into wrong_account_specified)) _
          h₃ in
      let (sos, _, h₅) =
        >>=-eq-ok (rt.unpack_account_from_slice (w a.pool_token_account_sos.key).bytes) _ h₄ in
      let (_, h₆) =
        require-eq-ok (sos.mint == a.mint_sos.key) (into wrong_account_specified) _ h₅ in
      let (clock, now, h₇) = >>=-eq-ok (rt.clock_from a.clock (w a.clock.key)) _ h₆ in
      let (bump, _, h₈) = >>=-eq-ok (is_derived rt a.pool_authority a.pool.key program_id) _ h₇ in
      let (w₁, made, h₉) =
        >>=-eq-ok
          (initialize_token_account rt a.pool_transit_token_account_sos a.mint_sos a.pool_authority
            a.rent w)
          _ h₈ in
      let (w₂, burnt, g₁) =
        >>=-eq-ok
          (burn_tokens_with_user_authority rt a.user_token_account_xsos a.mint_xsos a.user_wallet
            input.amount w₁)
          _ h₉ in
      let (w₃, sent, g₂) =
        >>=-eq-ok
          (token_transfer_program_authority rt a.pool.key a.pool_token_account_sos
            a.pool_transit_token_account_sos a.pool_authority bump input.amount w₂)
          _ g₁ in
      let (was, found, g₃) = >>=-eq-ok (read cs.pool_transit a.pool_transit w₃) _ g₂ in
      let (_, fresh, g₄) = >>=-eq-ok (check_uninitialized was.version) _ g₃ in
      let (p', read_p', g₅) = >>=-eq-ok (read cs.stake_pool a.pool w₃) _ g₄ in
      let (until, sum, put) =
        >>=-eq-ok (error_add_i64 clock.unix_timestamp p'.transit_outgoing) _ g₅ in
      let kept_all : (k : Pubkey) → (w k).owner ≡ program_id → IsKept w w₃ k = λ k owned.
        let kept₁ =
          call_keeps system_program token_program staking_program rt isolated program_id _ _ _ w w₁
            k (λ e. not_token (sym e)) owned made in
        let kept₂ =
          call_keeps system_program token_program staking_program rt isolated program_id _ _ _ w₁ w₂
            k (λ e. not_token (sym e)) (kept₁.same_owner ∙ owned) burnt in
        let kept₃ =
          call_keeps system_program token_program staking_program rt isolated program_id _ _ _ w₂ w₃
            k (λ e. not_token (sym e)) (kept₂.same_owner ∙ kept₁.same_owner ∙ owned) sent in
        IsKept-trans w w₂ w₃ k (IsKept-trans w w₁ w₂ k kept₁ kept₂) kept₃ in
      let owned = second_owner program_id a.pool a.pool_transit w owners in
      let pool_kept =
        kept_all a.pool.key (first_owner program_id a.pool (a.pool_transit ∷ []) w owners) in
      let stored = read-ok cs.stake_pool a.pool w read_p in
      let stored' = read-ok cs.stake_pool a.pool w₃ read_p' in
      let same = same_read cs.stake_pool _ _ pool_kept.same_bytes stored stored' in
      (
        p,
        was,
        clock,
        stored,
        same-eq p.pool_mint_xsos a.mint_xsos.key mint,
        now,
        write-IsOpened cs lawful program_id outgoing a.pool_transit a.pool.key a.user_wallet.key
            a.pool_transit_token_account_sos.key clock p.transit_outgoing until w w₃ w' was owned
            (kept_all a.pool_transit.key owned) found fresh
            (sum_at clock.unix_timestamp p p' same sum) put,
      )
