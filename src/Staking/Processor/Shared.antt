-- ===== src/Staking/Processor/Shared.antt =====
-- What the handlers of staking/program/src/processor.rs share: the codecs of the accounts, the inputs
-- of staking/program/src/instruction.rs, and the claim from a transit.
use solstarter.Common.{ℕ, ℤ, List}
use solstarter.Solana.{Pubkey, World, AccountInfo, Clock, Codec, Result, ok, ok_or, ◌>>=◌, write}
use solstarter.Staking.Error.{cannot_transit_anything_now, into}
use solstarter.Staking.Math
use solstarter.Staking.Math.{error_add}
use solstarter.Staking.State.{StakePool, PoolTransit, PoolLock}

pub record Codecs : Type 0 where
  pub stake_pool : Codec StakePool
  pub pool_transit : Codec PoolTransit
  pub pool_lock : Codec PoolLock

pub record InitializePoolInput : Type 0 where
  pub tier_balance : List ℕ
  pub ido_authority : Pubkey
  pub transit_incoming : ℤ
  pub transit_outgoing : ℤ

pub record StakeStartInput : Type 0 where
  pub amount : ℕ

pub record UnstakeStartInput : Type 0 where
  pub amount : ℕ

pub record LockInput : Type 0 where
  pub amount : ℕ

pub record UnlockInput : Type 0 where
  pub amount : ℕ

pub record StartPoolInput : Type 0 where
  pub pool_active_until : ℤ

-- Finishes some or all of a transit: the amount to claim, and the store with the transit's account.
unfoldable pub finish : Codecs → PoolTransit → Clock → ℕ → AccountInfo → World → Result (ℕ × World)
unfolding error_add
finish cs transit clock remaining_amount pool_transit w = do
  amount_to_claim ←
      ok_or
        (Math.finish transit.transit_from clock.unix_timestamp transit.transit_until
          transit.amount_claimed remaining_amount)
        (into cannot_transit_anything_now)
  claimed ← error_add 64 transit.amount_claimed amount_to_claim
  w' ← write cs.pool_transit (record transit { amount_claimed = claimed }) pool_transit w
  ok (amount_to_claim, w')
