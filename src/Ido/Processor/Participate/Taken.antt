-- ===== src/Ido/Processor/Participate/Taken.antt =====
-- What `participate` of ido/program/src/processor.rs takes of the amount offered, and for which tier.
use solstarter.Common.{ℕ, ◌≡◌, ◌≢◌, sym, ◌∙◌, Option, none, some, List, [], ◌∷◌, min, ◌==◌, arith}
use solstarter.Solana.{
  World, AccountInfo, Rent, Runtime, Pubkey, Result, ◌>>=◌, ◌>>◌, require, TokenAccount, ok,
  invalid_argument, index, >>=-eq-ok, require-eq-ok, is_owner, read, same_key, IsKept, IsKept-trans,
  IsIsolated, first_owner, read-ok, same-eq,
}
use solstarter.Staking.Program
use solstarter.Staking.State.{StakePool, PoolLock, get_tier}
use solstarter.Staking.State.Tier.{IsLastReached, get_tier-IsLastReached}
use solstarter.Ido.Error.{
  lock_owner_must_be_user_wallet, pool_lock_token_must_be_attached_to_pool_lock, into,
}
use solstarter.Ido.State.{
  Pool, Stage, MintWhitelist, initial_stage, tier_allocation_stage, final_stage,
}
use solstarter.Ido.State.Sale.{stage_investment}
use solstarter.Ido.Processor.Shared.{Codecs}
use solstarter.Ido.Processor.Participate.{
  ParticipateAccounts, map_in_use, stage_seed, create_stage_account, use_whitelist, amount_and_tier,
}

module _ (rt : Runtime) (cs : Codecs) (a : ParticipateAccounts) where
  -- The lock of the user in the stake pool given, which the staking program owns, holds the tokens
  -- `t`.
  pub record IsRanked (w : World) (s : StakePool) (l : PoolLock) (t : TokenAccount) : Type 0 where
    pub owned : (w a.pool_lock.key).owner ≡ Program.program_id
    pub stake_pool : cs.stake_pool.try_from_slice (w a.stake_pool.key).bytes ≡ some s
    pub lock : cs.pool_lock.try_from_slice (w a.pool_lock.key).bytes ≡ some l
    pub of_user : l.user_wallet ≡ a.user_wallet.key
    pub of_pool : l.pool ≡ a.stake_pool.key
    pub of_token : l.token_account_xsos ≡ a.pool_lock_account.key
    pub tokens : rt.unpack_account (w a.pool_lock_account.key).bytes ≡ ok t

  -- In the last stage all of the offer is taken, for no tier. In the first it is taken up to the balance
  -- of the user's tier, and in the second up to what remains for the tier.
  abbrev pub Taken : Stage → Pool → ℕ → World → ℕ → Option ℕ → Type 0
  Taken final_stage p offered w amount tier = (amount ≡ offered) × (tier ≡ none)
  Taken initial_stage p offered w amount tier =
      (s : StakePool) × (l : PoolLock) × (t : TokenAccount) × (i : ℕ) × (limit : ℕ) × IsRanked w s l
        t
      × IsLastReached s.tier_balance t.amount i
      × (tier ≡ some i)
      × (index s.tier_balance i ≡ ok limit)
      × (amount ≡ min offered limit)
  Taken tier_allocation_stage p offered w amount tier =
      (s : StakePool) × (l : PoolLock) × (t : TokenAccount) × (i : ℕ) × (limit : ℕ) × IsRanked w s l
        t
      × IsLastReached s.tier_balance t.amount i
      × (tier ≡ some i)
      × (index p.tier_remaining i ≡ ok limit)
      × (amount ≡ min offered limit)

initial_investment :
    (p : Pool) (offered : ℕ) (balances : List ℕ) (locked : ℕ) {amount : ℕ} {tier : Option ℕ}
    → stage_investment p offered initial_stage balances locked ≡ ok (amount, tier)
    → (i : ℕ) × (limit : ℕ) × (get_tier balances locked ≡ some i)
      × (tier ≡ some i)
      × (index balances i ≡ ok limit)
      × (amount ≡ min offered limit)
unfolding stage_investment
initial_investment p offered balances locked h = ground arith

tier_investment :
    (p : Pool) (offered : ℕ) (balances : List ℕ) (locked : ℕ) {amount : ℕ} {tier : Option ℕ}
    → stage_investment p offered tier_allocation_stage balances locked ≡ ok (amount, tier)
    → (i : ℕ) × (limit : ℕ) × (get_tier balances locked ≡ some i)
      × (tier ≡ some i)
      × (index p.tier_remaining i ≡ ok limit)
      × (amount ≡ min offered limit)
unfolding stage_investment
tier_investment p offered balances locked h = ground arith

module _ (rt : Runtime) (cs : Codecs) (program_id : Pubkey) (a : ParticipateAccounts) where
  ranked :
      {X : Type 0} (w : World) (next : StakePool → TokenAccount → Result X) {x : X}
      → (is_owner Program.program_id (a.pool_lock ∷ []) w
          >> (read cs.stake_pool a.stake_pool w >>= λ s. read cs.pool_lock a.pool_lock w >>= λ l.
              require (l.user_wallet == a.user_wallet.key) (into lock_owner_must_be_user_wallet)
              >> (require (l.pool == a.stake_pool.key) invalid_argument
                  >> (require
                        (l.token_account_xsos == a.pool_lock_account.key)
                        (into pool_lock_token_must_be_attached_to_pool_lock)
                      >> (rt.unpack_account (w a.pool_lock_account.key).bytes >>= λ t. next s t)))))
        ≡ ok x
      → (s : StakePool) × (l : PoolLock) × (t : TokenAccount) × IsRanked rt cs a w s l t
        × (next s t ≡ ok x)
  ranked w next h =
      let (_, owners, h₁) = >>=-eq-ok (is_owner Program.program_id (a.pool_lock ∷ []) w) _ h in
      let (s, read_s, h₂) = >>=-eq-ok (read cs.stake_pool a.stake_pool w) _ h₁ in
      let (l, read_l, h₃) = >>=-eq-ok (read cs.pool_lock a.pool_lock w) _ h₂ in
      let (user, h₄) =
        require-eq-ok (l.user_wallet == a.user_wallet.key) (into lock_owner_must_be_user_wallet) _
          h₃ in
      let (pool, h₅) = require-eq-ok (l.pool == a.stake_pool.key) invalid_argument _ h₄ in
      let (token, h₆) =
        require-eq-ok (l.token_account_xsos == a.pool_lock_account.key)
          (into pool_lock_token_must_be_attached_to_pool_lock) _ h₅ in
      let (t, unpacked, h₇) =
        >>=-eq-ok (rt.unpack_account (w a.pool_lock_account.key).bytes) _ h₆ in
      (
        s,
        l,
        t,
        record {
          owned = first_owner Program.program_id a.pool_lock [] w owners;
          stake_pool = read-ok cs.stake_pool a.stake_pool w read_s;
          lock = read-ok cs.pool_lock a.pool_lock w read_l;
          of_user = same-eq l.user_wallet a.user_wallet.key user;
          of_pool = same-eq l.pool a.stake_pool.key pool;
          of_token = same-eq l.token_account_xsos a.pool_lock_account.key token;
          tokens = unpacked;
        },
        h₇,
      )

  pub amount_and_tier-Taken :
      (stage : Stage) (p : Pool) (offered : ℕ) (w : World) {amount : ℕ} {tier : Option ℕ}
      → amount_and_tier rt cs program_id stage a p offered w ≡ ok (amount, tier)
      → Taken rt cs a stage p offered w amount tier
  unfolding amount_and_tier
  amount_and_tier-Taken final_stage p offered w h = ground arith
  amount_and_tier-Taken initial_stage p offered w h =
      let (s, l, t, is, h₁) =
        ranked w (λ s t. stage_investment p offered initial_stage s.tier_balance t.amount) h in
      let (i, limit, reached, tier, found, amount) =
        initial_investment p offered s.tier_balance t.amount h₁ in
      (
        s,
        l,
        t,
        i,
        limit,
        is,
        get_tier-IsLastReached s.tier_balance t.amount i reached,
        tier,
        found,
        amount,
      )
  amount_and_tier-Taken tier_allocation_stage p offered w h =
      let (s, l, t, is, h₁) =
        ranked w (λ s t. stage_investment p offered tier_allocation_stage s.tier_balance t.amount)
          h in
      let (i, limit, reached, tier, found, amount) =
        tier_investment p offered s.tier_balance t.amount h₁ in
      (
        s,
        l,
        t,
        i,
        limit,
        is,
        get_tier-IsLastReached s.tier_balance t.amount i reached,
        tier,
        found,
        amount,
      )

pub map_in_use-ok : (n : ℕ) (r : Result World) {w : World} → map_in_use n r ≡ ok w → r ≡ ok w
map_in_use-ok n (ok w) h = h
map_in_use-ok n (Result.err e) h = cc
map_in_use-ok n Result.panic h = cc

-- The store `v` keeps every account of `w` that belongs neither to the system program nor to the token
-- program.
module _ (system_program token_program : Pubkey) where
  abbrev pub IsReached : World → World → Type 0
  IsReached w v =
      (k : Pubkey) → (w k).owner ≢ system_program → (w k).owner ≢ token_program → IsKept w v k

-- What the steps before a participation's checks keep.
module _ (system_program token_program staking_program : Pubkey) (rt : Runtime)
    (isolated : IsIsolated system_program token_program staking_program rt) (cs : Codecs)
    (program_id : Pubkey) (a : ParticipateAccounts) where
  created_keeps :
      (stage : Stage) (rent : Rent) (w v : World) (k : Pubkey)
      → (w k).owner ≢ system_program
      → create_stage_account rt cs program_id a stage rent w ≡ ok v
      → IsKept w v k
  unfolding create_stage_account
  created_keeps stage rent w v k other h =
      let (_, _, h₁) = >>=-eq-ok (same_key _ a.pool_user_authority _) _ h in
      let (key, _, h₂) = >>=-eq-ok (rt.create_with_seed _ (stage_seed stage) program_id) _ h₁ in
      let (_, _, h₃) = >>=-eq-ok (same_key key a.user_pool_stage _) _ h₂ in
      let (o, b) =
        isolated.keeps_foreign _ _ _ w v k (map_in_use-ok rt.account_already_in_use _ h₃) other in
      record { same_owner = o; same_bytes = b }

  burnt_keeps :
      (m : MintWhitelist) (account mint : Option AccountInfo) (user : AccountInfo) (w v : World)
      (k : Pubkey)
      → (w k).owner ≢ token_program
      → use_whitelist rt cs program_id m account mint user w ≡ ok v
      → IsKept w v k
  unfolding use_whitelist
  burnt_keeps (MintWhitelist.none _) account mint user w v k other h = ground arith
  burnt_keeps (MintWhitelist.key m) (some account) (some mint) user w v k other h =
      let (_, burnt) = require-eq-ok _ _ _ h in
      let (o, b) = isolated.keeps_foreign _ _ _ w v k burnt other in
      record { same_owner = o; same_bytes = b }
  burnt_keeps (MintWhitelist.key m) (some account) none user w v k other h = cc
  burnt_keeps (MintWhitelist.key m) none mint user w v k other h = cc

  pub steps-IsReached :
      (stage : Stage) (rent : Rent) (m : MintWhitelist) (account mint : Option AccountInfo)
      (user : AccountInfo) (w u v : World)
      → create_stage_account rt cs program_id a stage rent w ≡ ok u
      → use_whitelist rt cs program_id m account mint user u ≡ ok v
      → IsReached system_program token_program w v
  steps-IsReached stage rent m account mint user w u v made burnt k not_system not_token =
      let kept = created_keeps stage rent w u k not_system made in
      IsKept-trans w u v k kept
        (burnt_keeps m account mint user u v k (λ e. not_token (sym kept.same_owner ∙ e)) burnt)
