-- ===== src/Tests/Codec.antt =====
-- A codec of pools that holds what a participation changes over one fixed pool, and a store.
use mathlib.Core.Logic.{ite}
use native.Mathlib.Decide.{ℕ_discrete}
use solstarter.Common.{ℕ, ◌≡◌, refl, sym, pos, Option, none, some, List, [], ◌∷◌, arith}
use solstarter.Solana.{Bytes, Codec, IsLawful}
use solstarter.Ido.State.{Pool, MintWhitelist, not_required}

unfoldable pub Pool-discrete : Discrete Pool
Pool-discrete = hlevel ℕ_discrete

abbrev pub pool_with : ℕ → ℕ → List ℕ → Pool
pool_with collected distributed remaining = record {
  version = 1;
  market = 11;
  account_collection = 16;
  account_distribution = 17;
  mint_pool = 18;
  mint_whitelist = MintWhitelist.none 0;
  kyc_requirement = not_required;
  price = 500_000_000;
  goal_max_collected = 1000;
  goal_min_collected = 100;
  amount_investment_min = 10;
  amount_investment_max = 300;
  time_start = pos 1000;
  time_finish = pos 2000;
  amount_collected = collected;
  amount_to_distribute = distributed;
  owner = 19;
  authority = 20;
  authority_bump_seed = 255;
  tier_allocation = 20 ∷ 40 ∷ 60 ∷ 80 ∷ [];
  tier_remaining = remaining;
  time_table = 100 ∷ 200 ∷ [];
}

-- The pool with the given one's variable fields.
abbrev varied : Pool → Pool
varied p = pool_with p.amount_collected p.amount_to_distribute p.tier_remaining

abbrev decode_pool : Bytes → Option Pool
decode_pool (c ∷ d ∷ remaining) = some (pool_with c d remaining)
decode_pool _ = none

abbrev encode_pool : Pool → Bytes → Option Bytes
encode_pool p b =
    ite (Pool-discrete p (varied p))
      (some (p.amount_collected ∷ p.amount_to_distribute ∷ p.tier_remaining)) none

abbrev pub pool_codec : Codec Pool
pool_codec = record { try_from_slice = decode_pool; serialize = encode_pool }

written-eq :
    (new : Pool) (b b' : Bytes)
    → Dec (new ≡ varied new)
    → encode_pool new b ≡ some b'
    → some new ≡ decode_pool b'
written-eq new b b' (yes e) put = ground arith
written-eq new b b' (no ne) put = ground arith

pub pool_codec-IsLawful : IsLawful pool_codec
pool_codec-IsLawful = record {
  reads_back =
      λ old new b b' was put. sym (written-eq new b b' (Pool-discrete new (varied new)) put);
}

encoded_sample : encode_pool (pool_with 1 2 (3 ∷ [])) [] ≡ some (1 ∷ 2 ∷ 3 ∷ [])
unfolding Pool-discrete ℕ_discrete
encoded_sample = refl
