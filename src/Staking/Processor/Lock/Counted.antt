-- ===== src/Staking/Processor/Lock/Counted.antt =====
-- The meaning of a stake pool's counts of tier users: the locks of all users, each in the tier that
-- its amount reaches.
use solstarter.Common.{
  ℕ, zero, suc, ◌+◌, ◌-◌, ◌≤◌, ◌<◌, ◌^◌, ◌≡◌, refl, Option, none, some, List, [], ◌∷◌, set, length,
  length-set, IsWord, arith,
}
use solstarter.Solana.{ok, index, index_total}
use solstarter.Staking.State.{StakePool, get_tier}
use solstarter.Staking.State.Tier.{IsLastReached-lt-length, get_tier-IsLastReached}
use solstarter.Staking.Processor.Lock.{leave_tier, enter_tier, change_tier, lock_tiers}
use solstarter.Staking.Processor.Lock.Tiers.{hits, users_at, leave_tier-users, lock_tiers-users}

-- How many of the locked amounts are in tier `k`.
unfoldable pub count_tier : List ℕ → ℕ → List ℕ → ℕ
count_tier balances k [] = 0
count_tier balances k (a ∷ amounts) = hits (get_tier balances a) k + count_tier balances k amounts

-- The pool's counts are those of the locks of all users.
abbrev pub IsCounted : StakePool → List ℕ → Type 0
IsCounted p amounts = (k : ℕ) → users_at p k ≡ count_tier p.tier_balance k amounts

pub count_tier-set :
    (balances : List ℕ) (k : ℕ) (amounts : List ℕ) (i a b : ℕ)
    → index amounts i ≡ ok a
    → count_tier balances k (set amounts i b) + hits (get_tier balances a) k
      ≡ count_tier balances k amounts + hits (get_tier balances b) k
unfolding count_tier
count_tier-set balances k [] i a b h = cc
count_tier-set balances k (x ∷ xs) zero a b h = ground arith
count_tier-set balances k (x ∷ xs) (suc i) a b h =
    let ih = count_tier-set balances k xs i a b h in omega arith

hits-le : (t : Option ℕ) (k : ℕ) → hits t k ≤ 1
hits-le none k = omega arith
hits-le (some t) k = ground arith

count_tier-le :
    (balances : List ℕ) (k : ℕ) (amounts : List ℕ) → count_tier balances k amounts ≤ length amounts
unfolding count_tier
count_tier-le balances k [] = omega arith
count_tier-le balances k (a ∷ amounts) =
    let ih = count_tier-le balances k amounts in omega (arith, hits-le (get_tier balances a) k)

pub hits-le-count :
    (balances : List ℕ) (k : ℕ) (amounts : List ℕ) (i a : ℕ)
    → index amounts i ≡ ok a
    → hits (get_tier balances a) k ≤ count_tier balances k amounts
unfolding count_tier
hits-le-count balances k [] i a h = cc
hits-le-count balances k (x ∷ xs) zero a h = ground arith
hits-le-count balances k (x ∷ xs) (suc i) a h =
    let ih = hits-le-count balances k xs i a h in omega arith

-- Where a pool's counts are those of the locks of all users and one of the locks grows, they are so
-- after a successful `lock_tiers` too, with the lock's new amount.
pub lock_tiers-IsCounted :
    (p : StakePool) (amounts : List ℕ) (i a added : ℕ) {p' : StakePool}
    → IsCounted p amounts
    → index amounts i ≡ ok a
    → lock_tiers a added p ≡ ok p'
    → IsCounted p' (set amounts i (a + added))
lock_tiers-IsCounted p amounts i a added {p'} counted found done k =
    let (users, balances) = lock_tiers-users a added p k done in
    let moved = count_tier-set p.tier_balance k amounts i a (a + added) found in
    let before = counted k in rw balances omega arith

-- A tier with a user in it can be left.
pub leave_tier_succeeds :
    (t : Option ℕ) (p : StakePool)
    → ((i : ℕ) → t ≡ some i → (i < length p.tier_users) × (0 < users_at p i))
    → (q : StakePool) × (leave_tier t p ≡ ok q) × (length q.tier_users ≡ length p.tier_users)
unfolding leave_tier
leave_tier_succeeds none p h = (p, refl, refl)
leave_tier_succeeds (some i) p h =
    let (inside, occupied) = h i refl in
    (
      record p { tier_users = set p.tier_users i (users_at p i - 1) },
      rw (index_total p.tier_users i inside) (ground arith),
      length-set p.tier_users i (users_at p i - 1),
    )

enter_tier_succeeds :
    (j : ℕ) (q : StakePool)
    → j < length q.tier_users
    → users_at q j + 1 < 2 ^ 32
    → (p' : StakePool) × (enter_tier j q ≡ ok p')
unfolding enter_tier
enter_tier_succeeds j q inside room = (
  record q { tier_users = set q.tier_users j (users_at q j + 1) },
  rw (index_total q.tier_users j inside) (ground arith),
)

change_tier_succeeds :
    (old new : Option ℕ) (p : StakePool)
    → ((i : ℕ) → old ≡ some i → (i < length p.tier_users) × (0 < users_at p i))
    → ((j : ℕ)
        → new ≡ some j
        → (j < length p.tier_users) × (users_at p j + 1 < 2 ^ 32 + hits old j))
    → (p' : StakePool) × (change_tier old new p ≡ ok p')
unfolding change_tier
change_tier_succeeds old none p ho hn = (p, refl)
change_tier_succeeds old (some j) p ho hn =
    let (q, e, len) = leave_tier_succeeds old p ho in
    let (inside, room) = hn j refl in
    let left = leave_tier-users old p j e in
    let (p', e') = enter_tier_succeeds j q (omega arith) (omega arith) in (p', rw e e')

-- Where the counts are those of the locks of all users, which are fewer than 2 ^ 32, and there is a
-- count for each tier, growing one of the locks to an amount that fits a `u64` succeeds.
pub lock_tiers_succeeds :
    (p : StakePool) (amounts : List ℕ) (i a added : ℕ)
    → IsCounted p amounts
    → index amounts i ≡ ok a
    → length amounts < 2 ^ 32
    → length p.tier_users ≡ length p.tier_balance
    → IsWord 64 (a + added)
    → (p' : StakePool) × (lock_tiers a added p ≡ ok p')
unfolding lock_tiers
lock_tiers_succeeds p amounts i a added counted found few same fits =
    let (p', e) =
      change_tier_succeeds (get_tier p.tier_balance a) (get_tier p.tier_balance (a + added)) p
        (λ k e. (
          rw same (
              IsLastReached-lt-length p.tier_balance a k
                (get_tier-IsLastReached p.tier_balance a k e)),
          old_occupied k e,
        ))
        (λ j e. (
          rw same (
              IsLastReached-lt-length p.tier_balance (a + added) j
                (get_tier-IsLastReached p.tier_balance (a + added) j e)),
          new_room j e,
        )) in
    (p', ground (arith))
  where
    old_occupied : (k : ℕ) → get_tier p.tier_balance a ≡ some k → 0 < users_at p k
    old_occupied k e =
        let one : hits (get_tier p.tier_balance a) k ≡ 1 = rw e (ground arith) in
        omega (arith, hits-le-count p.tier_balance k amounts i a found, counted k)

    new_room :
        (j : ℕ)
        → get_tier p.tier_balance (a + added) ≡ some j
        → users_at p j + 1 < 2 ^ 32 + hits (get_tier p.tier_balance a) j
    new_room j e =
        let one : hits (get_tier p.tier_balance (a + added)) j ≡ 1 = rw e (ground arith) in
        omega (
          arith,
          counted j,
          count_tier-set p.tier_balance j amounts i a (a + added) found,
          count_tier-le p.tier_balance j (set amounts i (a + added)),
          length-set {0} amounts i (a + added),
        )
