-- ===== src/Ido/Processor/Shared.antt =====
-- What the handlers share: the codecs of the accounts they read and write, the program's keys, and
-- `validate_market_owner`.
use Prim.Native.String.{String}
use solstarter.Common.{◌==◌}
use solstarter.Solana.{
  Pubkey, World, AccountInfo, Codec, Result, ok, require, ◌>>=◌, ◌>>◌, is_signer, read_unwrap,
}
use solstarter.Staking.State.{StakePool, PoolLock}
use solstarter.Ido.Error.{wrong_market_owner, into}
use solstarter.Ido.State.{Market, Pool, MarketUserKyc, check_initialized}

pub record Codecs : Type 0 where
  pub market : Codec Market
  pub pool : Codec Pool
  pub market_user_kyc : Codec MarketUserKyc
  pub stake_pool : Codec StakePool
  pub pool_lock : Codec PoolLock

abbrev pub kyc_seed : String
kyc_seed = "kyc"

abbrev pub program_id : Pubkey
program_id = 0xd7f8924d61aa4cbe0292ff2edd782f62e15fa3609fda5757bfbe2598e93f84ef

unfoldable pub validate_market_owner : Codecs → AccountInfo → AccountInfo → World → Result Market
unfolding check_initialized
validate_market_owner cs market market_owner w = do
  market_state ← read_unwrap cs.market market w
  check_initialized market_state.version
  require (market_owner.key == market_state.owner) (into wrong_market_owner)
  is_signer market_owner
  ok market_state
