-- ===== src/Staking/Processor/Start/Stored.antt =====
-- What a successful `start_pool` of staking/program/src/processor.rs has checked and leaves in the store.
use solstarter.Common.{◌≡◌, ◌≢◌, ◌≤ℤ◌, ltb_ℤ, ◌==◌, true, false, some, ◌∷◌, [], ◌∙◌, arith}
use solstarter.Solana.{
  World, Runtime, Pubkey, Clock, ok, >>=-eq-ok, require-eq-ok, fail_if-eq-ok, is_owner, is_signer,
  read, IsLawful, write-ok, write_keeps, read-ok, is_signer-ok, same-eq, first_owner,
}
use solstarter.Staking.Error.{
  pool_must_be_related_to_market, pool_must_be_active_for_some_time, into,
}
use solstarter.Staking.State.{StakePool}
use solstarter.Staking.Processor.Shared.{Codecs, StartPoolInput}
use solstarter.Staking.Processor.Start.{StartPoolAccounts, start_pool}

-- What a start has checked of the pool `p`, and that it leaves `p` active until the time given.
pub record IsStarted (rt : Runtime) (cs : Codecs) (program_id : Pubkey) (a : StartPoolAccounts)
    (input : StartPoolInput) (w w' : World) (p : StakePool) (clock : Clock) : Type 0 where
  pub stored : cs.stake_pool.try_from_slice (w a.pool.key).bytes ≡ some p
  pub now : rt.clock_from a.clock (w a.clock.key) ≡ ok clock
  pub signed : a.market_authority.is_signer ≡ true
  pub of_market : a.market_authority.key ≡ p.ido_authority
  pub in_future : clock.unix_timestamp ≤ℤ input.pool_active_until
  pub owned : (w a.pool.key).owner ≡ program_id
  pub still_owned : (w' a.pool.key).owner ≡ program_id
  pub started :
      cs.stake_pool.try_from_slice (w' a.pool.key).bytes
      ≡ some (record p { pool_active_until = input.pool_active_until })
  pub others : (k : Pubkey) → a.pool.key ≢ k → w' k ≡ w k

not_past :
    (clock : Clock) (input : StartPoolInput)
    → ltb_ℤ input.pool_active_until clock.unix_timestamp ≡ false
    → clock.unix_timestamp ≤ℤ input.pool_active_until
not_past clock input h = ground arith

-- With a codec that reads back what it writes, a successful `start_pool` is signed by the authority that
-- the pool names, gives a time that is not past, and changes nothing but the time in the pool.
pub start_pool-IsStarted :
    (rt : Runtime) (cs : Codecs) (lawful : IsLawful cs.stake_pool) (program_id : Pubkey)
    (a : StartPoolAccounts) (input : StartPoolInput) (w w' : World)
    → start_pool rt cs program_id a input w ≡ ok w'
    → (p : StakePool) × (clock : Clock) × IsStarted rt cs program_id a input w w' p clock
unfolding start_pool
start_pool-IsStarted rt cs lawful program_id a input w w' h =
    let (_, owners, h₁) = >>=-eq-ok (is_owner program_id (a.pool ∷ []) w) _ h in
    let (_, signed, h₂) = >>=-eq-ok (is_signer a.market_authority) _ h₁ in
    let (p, read_p, h₃) = >>=-eq-ok (read cs.stake_pool a.pool w) _ h₂ in
    let (clock, now, h₄) = >>=-eq-ok (rt.clock_from a.clock (w a.clock.key)) _ h₃ in
    let (same, h₅) =
      require-eq-ok (a.market_authority.key == p.ido_authority)
        (into pool_must_be_related_to_market) _ h₄ in
    let (future, put) =
      fail_if-eq-ok (ltb_ℤ input.pool_active_until clock.unix_timestamp)
        (into pool_must_be_active_for_some_time) _ h₅ in
    let p' = record p { pool_active_until = input.pool_active_until } in
    let (b, encoded, written, owner) = write-ok cs.stake_pool p' a.pool w put in
    let owned = first_owner program_id a.pool [] w owners in
    (
      p,
      clock,
      record {
        stored = read-ok cs.stake_pool a.pool w read_p;
        now = now;
        signed = is_signer-ok a.market_authority signed;
        of_market = same-eq _ _ same;
        in_future = not_past clock input future;
        owned = owned;
        still_owned = owner ∙ owned;
        started = rw written (
            lawful.reads_back p p' (w a.pool.key).bytes b (read-ok cs.stake_pool a.pool w read_p)
              encoded);
        others = λ k apart. write_keeps cs.stake_pool p' a.pool w k put apart;
      },
    )
