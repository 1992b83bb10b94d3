-- ===== src/Staking/Processor/Lock/History.antt =====
-- Histories of the locks of one stake pool, by what `initialize_lock`, `lock` and `unlock` of
-- staking/program/src/processor.rs do to its counts.
use solstarter.Common.{
  ℕ, zero, suc, ◌+◌, ◌-◌, ◌<◌, ◌^◌, ◌≡◌, refl, sym, ap, ◌∙◌, Option, none, some, List, [], ◌∷◌, set,
  length, length-set, IsWord, arith,
}
use solstarter.Solana.{ok, err, index, index_total, >>=-eq-ok}
use solstarter.Staking.Math.{error_add, error_sub}
use solstarter.Staking.State.{StakePool, get_tier}
use solstarter.Staking.Error.{underflow, into}
use solstarter.Staking.State.Tier.{get_tier_mono, IsLastReached-lt-length, get_tier-IsLastReached}
use solstarter.Staking.Processor.Lock.{
  leave_tier, enter_tier, change_tier, lock_tiers, raise_balance, unlock_tiers,
}
use solstarter.Staking.Processor.Lock.Tiers.{hits, users_at, unlock_tiers-users}
use solstarter.Staking.Processor.Lock.Counted.{
  IsCounted, count_tier, count_tier-set, hits-le-count, leave_tier_succeeds, lock_tiers-IsCounted,
  lock_tiers_succeeds,
}

-- The pools that `p` can become, with the amounts of all locks: a new lock is empty, a lock grows by
-- `lock`, and `unlock` takes a lock out of all tiers, as where it takes all of it.
pub data History (p : StakePool) : StakePool → List ℕ → Type 0 where
  fresh : History p p []
  joins : {q : StakePool} {amounts : List ℕ} → History p q amounts → History p q (0 ∷ amounts)
  locks :
      {q q' : StakePool} {amounts : List ℕ} (i a added : ℕ)
      → History p q amounts
      → index amounts i ≡ ok a
      → lock_tiers a added q ≡ ok q'
      → History p q' (set amounts i (a + added))
  unlocks :
      {q q' : StakePool} {amounts : List ℕ} (i a removed : ℕ)
      → History p q amounts
      → index amounts i ≡ ok a
      → get_tier q.tier_balance (a - removed) ≡ none
      → unlock_tiers a removed q ≡ ok q'
      → History p q' (set amounts i (a - removed))

leave_tier-length :
    (tier : Option ℕ) (p : StakePool) {p' : StakePool}
    → leave_tier tier p ≡ ok p'
    → (length p'.tier_users ≡ length p.tier_users) × (p'.tier_balance ≡ p.tier_balance)
unfolding leave_tier
leave_tier-length none p h = ground arith
leave_tier-length (some tier) p h = grind (arith, length-set)

enter_tier-length :
    (tier : ℕ) (p : StakePool) {p' : StakePool}
    → enter_tier tier p ≡ ok p'
    → (length p'.tier_users ≡ length p.tier_users) × (p'.tier_balance ≡ p.tier_balance)
unfolding enter_tier
enter_tier-length tier p h = grind (arith, length-set)

change_tier-length :
    (old new : Option ℕ) (p : StakePool) {p' : StakePool}
    → change_tier old new p ≡ ok p'
    → (length p'.tier_users ≡ length p.tier_users) × (p'.tier_balance ≡ p.tier_balance)
unfolding change_tier
change_tier-length old none p h = ground arith
change_tier-length old (some new) p h =
    let (q, e, h₁) = >>=-eq-ok (leave_tier old p) _ h in
    let (l, b) = leave_tier-length old p e in
    let (l', b') = enter_tier-length new q h₁ in (l' ∙ l, b' ∙ b)

lock_tiers-length :
    (a added : ℕ) (p : StakePool) {p' : StakePool}
    → lock_tiers a added p ≡ ok p'
    → (length p'.tier_users ≡ length p.tier_users) × (p'.tier_balance ≡ p.tier_balance)
unfolding lock_tiers
lock_tiers-length a added p h =
    let (v, _, h₁) = >>=-eq-ok (error_add 64 a added) _ h in
    change_tier-length (get_tier p.tier_balance a) (get_tier p.tier_balance v) p h₁

-- An unlock into no tier changes no balance.
unlock_tiers-length :
    (a removed : ℕ) (p : StakePool) {p' : StakePool}
    → get_tier p.tier_balance (a - removed) ≡ none
    → unlock_tiers a removed p ≡ ok p'
    → (length p'.tier_users ≡ length p.tier_users) × (p'.tier_balance ≡ p.tier_balance)
unfolding unlock_tiers error_sub raise_balance
unlock_tiers-length a removed p out h =
    let (q, e, h₁) = >>=-eq-ok (leave_tier (get_tier p.tier_balance a) p) _ h in
    let (v, e₁, h₂) = >>=-eq-ok (error_sub a removed) _ h₁ in
    let (l, b) = leave_tier-length (get_tier p.tier_balance a) p e in
    let rest : v ≡ a - removed = ground arith in
    let lost : get_tier q.tier_balance v ≡ none = rw (b, rest) out in ground (arith, rw lost at h₂)

pub unlock_tiers-IsCounted :
    (p : StakePool) (amounts : List ℕ) (i a removed : ℕ) {p' : StakePool}
    → IsCounted p amounts
    → index amounts i ≡ ok a
    → get_tier p.tier_balance (a - removed) ≡ none
    → unlock_tiers a removed p ≡ ok p'
    → IsCounted p' (set amounts i (a - removed))
unlock_tiers-IsCounted p amounts i a removed {p'} counted found out done k =
    let (_, users, _) = unlock_tiers-users a removed p k done in
    let (_, balances) = unlock_tiers-length a removed p out done in
    let moved = count_tier-set p.tier_balance k amounts i a (a - removed) found in
    let nowhere : hits (get_tier p.tier_balance (a - removed)) k ≡ 0 = rw out refl in
    let before = counted k in rw balances omega arith

empty_users : (k : ℕ) (p : StakePool) → p.tier_users ≡ 0 ∷ 0 ∷ 0 ∷ 0 ∷ [] → users_at p k ≡ 0
empty_users zero p e = rw e refl
empty_users (suc zero) p e = rw e refl
empty_users (suc (suc zero)) p e = rw e refl
empty_users (suc (suc (suc zero))) p e = rw e refl
empty_users (suc (suc (suc (suc k)))) p e = rw e refl

-- The pool has the counts of all locks, with the balances of the pool it began as and a count for each.
record IsKept (p q : StakePool) (amounts : List ℕ) : Type 0 where
  pub counted : IsCounted q amounts
  pub same_length : length q.tier_users ≡ length p.tier_users
  pub same_balances : q.tier_balance ≡ p.tier_balance

module _ (p : StakePool) (no_users : p.tier_users ≡ 0 ∷ 0 ∷ 0 ∷ 0 ∷ [])
    (above_zero : get_tier p.tier_balance 0 ≡ none) where
  History-IsKept : {q : StakePool} {amounts : List ℕ} → History p q amounts → IsKept p q amounts
  unfolding count_tier
  History-IsKept fresh = record {
    counted = λ k. empty_users k p no_users;
    same_length = refl;
    same_balances = refl;
  }
  History-IsKept (joins {q} {amounts} h) =
      let before = History-IsKept h in
      let out : get_tier q.tier_balance 0 ≡ none = rw before.same_balances above_zero in
      record {
        counted = λ k. let same = before.counted k in rw out omega arith;
        same_length = before.same_length;
        same_balances = before.same_balances;
      }
  History-IsKept (locks {q} {q'} {amounts} i a added h found done) =
      let before = History-IsKept h in
      let (l, b) = lock_tiers-length a added q done in
      record {
        counted = lock_tiers-IsCounted q amounts i a added before.counted found done;
        same_length = l ∙ before.same_length;
        same_balances = b ∙ before.same_balances;
      }
  History-IsKept (unlocks {q} {q'} {amounts} i a removed h found out done) =
      let before = History-IsKept h in
      let (l, b) = unlock_tiers-length a removed q out done in
      record {
        counted = unlock_tiers-IsCounted q amounts i a removed before.counted found out done;
        same_length = l ∙ before.same_length;
        same_balances = b ∙ before.same_balances;
      }

  -- Where a pool begins with no users in its four tiers and no tier is reached by an empty lock: after any
  -- locks have been made, have grown, and have been unlocked out of all tiers, in any order, the pool
  -- counts in each tier those locks whose amounts reach it last, and has the balances it began with.
  pub History-IsCounted :
      {q : StakePool} {amounts : List ℕ}
      → History p q amounts
      → IsCounted q amounts × (q.tier_balance ≡ p.tier_balance)
  History-IsCounted h = let kept = History-IsKept h in (kept.counted, kept.same_balances)

  -- Where a pool begins with no users in its four tiers, with four balances, none of which an empty lock
  -- reaches: after any locks, fewer than 2 ^ 32, have been made, have grown, and have been unlocked out
  -- of all tiers, in any order, no lock is blocked by the counts: it can grow to any amount that fits a
  -- `u64`, and it can be unlocked as a whole.
  pub counts_never_block :
      {q : StakePool} {amounts : List ℕ} (i a added : ℕ)
      → length p.tier_balance ≡ 4
      → History p q amounts
      → index amounts i ≡ ok a
      → length amounts < 2 ^ 32
      → IsWord 64 (a + added)
      → ((q' : StakePool) × (lock_tiers a added q ≡ ok q'))
        × ((q' : StakePool) × (unlock_tiers a a q ≡ ok q'))
  unfolding unlock_tiers raise_balance error_sub
  counts_never_block {q} {amounts} i a added four h found few fits =
      let kept = History-IsKept h in
      let same : length q.tier_users ≡ length q.tier_balance =
        kept.same_length ∙ ap length no_users ∙ sym (ap length kept.same_balances ∙ four) in
      let (left, e, _) = leave_tier_succeeds (get_tier q.tier_balance a) q (λ k t. (
        rw same (
            IsLastReached-lt-length q.tier_balance a k
              (get_tier-IsLastReached q.tier_balance a k t)),
        occupied kept k t,
      )) in
      let (_, b) = leave_tier-length (get_tier q.tier_balance a) q e in
      let out : get_tier left.tier_balance 0 ≡ none = rw (b, kept.same_balances) above_zero in
      (
        lock_tiers_succeeds q amounts i a added kept.counted found few same fits,
        (left, rw e (ground (arith, out))),
      )
    where
      occupied :
          IsKept p q amounts → (k : ℕ) → get_tier q.tier_balance a ≡ some k → 0 < users_at q k
      occupied kept k t =
          let one : hits (get_tier q.tier_balance a) k ≡ 1 = rw t (ground arith) in
          omega (arith, hits-le-count q.tier_balance k amounts i a found, kept.counted k)

-- Where an empty lock reaches a tier that counts no users, as in a new pool with a balance of zero, no
-- amount that fits a `u64` can be locked first.
pub zero_tier_blocks_first_lock :
    (p : StakePool) (tier added : ℕ)
    → get_tier p.tier_balance 0 ≡ some tier
    → users_at p tier ≡ 0
    → tier < length p.tier_users
    → IsWord 64 added
    → lock_tiers 0 added p ≡ err (into underflow)
unfolding lock_tiers change_tier leave_tier error_add
zero_tier_blocks_first_lock p tier added reached empty inside fits =
    let (new, e, _) = get_tier_mono p.tier_balance 0 added tier (omega arith) reached in
    let sum : error_add 64 0 added ≡ ok added = ground arith in
    rw (reached, sum, e) (ground (arith, index_total p.tier_users tier inside))
