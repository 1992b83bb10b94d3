-- ===== src/Tests/StakeStore.antt =====
-- Codecs and a store of the staking program, over the runtime of Tests/Platform.antt.
use solstarter.Common.{
  ℕ, pos, ◌≡◌, ◌==◌, if◌then◌else◌, sym, true, false, none, some, Option, List, [], ◌∷◌, arith,
}
use solstarter.Solana.{Pubkey, Bytes, Account, World, AccountInfo, Codec, Result, ok, IsLawful}
use solstarter.Staking.State.{StakePool, PoolTransit, TransitDirection, v1}
use solstarter.Staking.Processor.Shared.{Codecs}
use solstarter.Tests.Platform.{token_program, system_program}
use native.Mathlib.Decide.{ℕ_discrete}
use mathlib.Core.Logic.{ite}

-- A pool that holds what `lock` changes, over one fixed pool.
abbrev pub pool_with : List ℕ → StakePool
pool_with users = record {
  version = v1;
  token_account_sos = 31;
  pool_mint_xsos = 32;
  ido_authority = 33;
  tier_users = users;
  tier_balance = 10 ∷ 20 ∷ 30 ∷ 40 ∷ [];
  transit_incoming = pos 60;
  transit_outgoing = pos 60;
  pool_active_until = pos 0;
}

unfoldable pub StakePool-discrete : Discrete StakePool
StakePool-discrete = hlevel ℕ_discrete

abbrev encode_pool : StakePool → Bytes → Option Bytes
encode_pool p b = ite (StakePool-discrete p (pool_with p.tier_users)) (some p.tier_users) none

abbrev pub pool_codec : Codec StakePool
pool_codec = record { try_from_slice = λ b. some (pool_with b); serialize = encode_pool }

pool_written :
    (new : StakePool) (b b' : Bytes)
    → Dec (new ≡ pool_with new.tier_users)
    → encode_pool new b ≡ some b'
    → some new ≡ some (pool_with b')
pool_written new b b' (yes e) put = ground arith
pool_written new b b' (no ne) put = ground arith

pub pool_codec-IsLawful : IsLawful pool_codec
pool_codec-IsLawful = record {
  reads_back = λ old new b b' was put.
      sym (pool_written new b b' (StakePool-discrete new (pool_with new.tier_users)) put);
}

-- A transit from 100 to 200 of user 50 under pool 10, with the tokens under 60.
abbrev pub transit_with : TransitDirection → ℕ → PoolTransit
transit_with direction claimed = record {
  version = v1;
  pool = 10;
  direction = direction;
  user_wallet = 50;
  token_account_sos = 60;
  transit_from = pos 100;
  transit_until = pos 200;
  amount_claimed = claimed;
}

unfoldable pub PoolTransit-discrete : Discrete PoolTransit
PoolTransit-discrete = hlevel ℕ_discrete

abbrev decode_transit : TransitDirection → Bytes → Option PoolTransit
decode_transit direction (c ∷ []) = some (transit_with direction c)
decode_transit direction _ = none

abbrev encode_transit : TransitDirection → PoolTransit → Bytes → Option Bytes
encode_transit direction p b =
    ite (PoolTransit-discrete p (transit_with direction p.amount_claimed))
      (some (p.amount_claimed ∷ [])) none

abbrev pub transit_codec : TransitDirection → Codec PoolTransit
transit_codec direction = record {
  try_from_slice = decode_transit direction;
  serialize = encode_transit direction;
}

transit_written :
    (direction : TransitDirection) (new : PoolTransit) (b b' : Bytes)
    → Dec (new ≡ transit_with direction new.amount_claimed)
    → encode_transit direction new b ≡ some b'
    → some new ≡ decode_transit direction b'
transit_written direction new b b' (yes e) put = ground arith
transit_written direction new b b' (no ne) put = ground arith

pub transit_codec-IsLawful : (direction : TransitDirection) → IsLawful (transit_codec direction)
transit_codec-IsLawful direction = record {
  reads_back = λ old new b b' was put. sym (
      transit_written direction new b b'
        (PoolTransit-discrete new (transit_with direction new.amount_claimed)) put);
}

abbrev pub codecs : TransitDirection → Codecs
codecs direction = record {
  stake_pool = pool_codec;
  pool_transit = transit_codec direction;
  pool_lock = record {
    try_from_slice =
        λ b. some (record { version = v1; pool = 10; user_wallet = 50; token_account_xsos = 60 });
    serialize = λ l b. none;
  };
}

-- The key of the staking program in these stores.
abbrev pub staking : Pubkey
staking = 3

abbrev pub entry : Pubkey → Bytes → Account
entry owner b = record { owner = owner; lamports = 1; bytes = b }

abbrev pub info : Pubkey → AccountInfo
info k = record { key = k; is_signer = false }

abbrev pub signing : Pubkey → AccountInfo
signing k = record { key = k; is_signer = true }

abbrev at_key : List (Pubkey × Account) → World
at_key [] k = entry system_program []
at_key ((j, a) ∷ rest) k = if j == k then a else at_key rest k

-- A pool under 10, the record of a transit or lock under 70, its tokens under 60, the user's tokens under
-- 51 and 52, the pool's under 31, and the time under 40.
abbrev pub store : World
store = at_key (
    (10, entry staking (0 ∷ 1 ∷ 0 ∷ 0 ∷ []))
    ∷ (70, entry staking (10 ∷ []))
    ∷ (60, entry token_program (31 ∷ 25 ∷ []))
    ∷ (51, entry token_program (31 ∷ 500 ∷ []))
    ∷ (52, entry token_program (32 ∷ 0 ∷ []))
    ∷ (31, entry token_program (31 ∷ 7 ∷ []))
    ∷ (40, entry system_program (180 ∷ []))
    ∷ [])

abbrev pub left : Result World → World
left (ok w) = w
left _ = store
