-- ===== src/Ido/Processor/Start.antt =====
-- `start_pool` of ido/program/src/processor.rs.
pub mod Stored
pub mod Freezes
use solstarter.Common.{ltb_ℤ, ◌==◌, ◌||◌, ◌∷◌, []}
use solstarter.Solana.{
  Pubkey, World, AccountInfo, Runtime, key_seed, bump_seed, Result, ok, require, fail_if, ◌>>=◌,
  ◌>>◌, is_owner, is_signer, read_unwrap, write,
}
use solstarter.Solana
use solstarter.Staking.Program.{find_key_program_address}
use solstarter.Ido.Error.{
  invalid_pool_time_frame, stake_pool_must_belong_to_market, wrong_market_address_for_current_pool,
  market_or_pool_owner_required, into,
}
use solstarter.Ido.State.{check_initialized}
use solstarter.Ido.State.Sale.{set_tier_allocations}
use solstarter.Ido.Processor.Shared.{Codecs}
use solstarter.Ido.Processor.Shared

pub record StartPoolAccounts : Type 0 where
  pub market : AccountInfo
  pub market_or_pool_owner : AccountInfo
  pub stake_pool : AccountInfo
  pub market_authority : AccountInfo
  pub pool : AccountInfo
  pub clock : AccountInfo

module _ (rt : Runtime) (cs : Codecs) (program_id : Pubkey) where
  unfoldable pub start_pool : StartPoolAccounts → World → Result World
  unfolding check_initialized
  start_pool a w = do
    is_owner program_id (a.market ∷ a.pool ∷ []) w
    is_signer a.market_or_pool_owner
    p ← read_unwrap cs.pool a.pool w
    check_initialized p.version
    clock ← rt.clock_from a.clock (w a.clock.key)
    fail_if (ltb_ℤ clock.unix_timestamp p.time_start || ltb_ℤ p.time_finish clock.unix_timestamp)
        (into invalid_pool_time_frame)
    market_state ← read_unwrap cs.market a.market w
    check_initialized market_state.version
    require (market_state.stake_pool == a.stake_pool.key) (into stake_pool_must_belong_to_market)
    require (p.market == a.market.key) (into wrong_market_address_for_current_pool)
    require
        (p.owner == a.market_or_pool_owner.key || market_state.owner == a.market_or_pool_owner.key)
        (into market_or_pool_owner_required)
    stake_pool_state ← read_unwrap cs.stake_pool a.stake_pool w
    p' ← set_tier_allocations p stake_pool_state.tier_users stake_pool_state.tier_balance
    let market_authority_bump = (find_key_program_address rt a.market.key Shared.program_id).1
    w₁ ←
        rt.invoke_signed (Solana.start_pool a.stake_pool.key a.market_authority.key p.time_finish)
          (a.stake_pool ∷ a.market_authority ∷ a.clock ∷ [])
          (key_seed a.market.key ∷ bump_seed market_authority_bump ∷ []) w
    w₂ ← write cs.market market_state a.market w₁
    write cs.pool p' a.pool w₂
