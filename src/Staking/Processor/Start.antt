-- ===== src/Staking/Processor/Start.antt =====
-- `start_pool` of staking/program/src/processor.rs.
pub mod Stored
use solstarter.Common.{ltb_ℤ, ◌∷◌, [], ◌==◌}
use solstarter.Solana.{
  Pubkey, World, AccountInfo, Runtime, Result, require, fail_if, ◌>>=◌, ◌>>◌, is_owner, is_signer,
  read, write,
}
use solstarter.Staking.Error.{
  pool_must_be_related_to_market, pool_must_be_active_for_some_time, into,
}
use solstarter.Staking.Processor.Shared.{Codecs, StartPoolInput}

pub record StartPoolAccounts : Type 0 where
  pub pool : AccountInfo
  pub market_authority : AccountInfo
  pub clock : AccountInfo

module _ (rt : Runtime) (cs : Codecs) (program_id : Pubkey) where
  unfoldable pub start_pool : StartPoolAccounts → StartPoolInput → World → Result World
  start_pool a input w = do
    is_owner program_id (a.pool ∷ []) w
    is_signer a.market_authority
    pool_state ← read cs.stake_pool a.pool w
    clock ← rt.clock_from a.clock (w a.clock.key)
    require (a.market_authority.key == pool_state.ido_authority)
        (into pool_must_be_related_to_market)
    fail_if (ltb_ℤ input.pool_active_until clock.unix_timestamp)
        (into pool_must_be_active_for_some_time)
    write cs.stake_pool (record pool_state { pool_active_until = input.pool_active_until }) a.pool w
