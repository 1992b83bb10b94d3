-- ===== src/Staking/Processor/Lock/Tiers.antt =====
-- What `lock` and `unlock` of staking/program/src/processor.rs do to the counts of tier users and to
-- the balances of the tiers.
use solstarter.Common.{
  ℕ, ◌+◌, ◌-◌, ◌≤◌, ◌<◌, ◌≡◌, refl, Option, none, some, inl, inr, List, get_or, length, ◌==◌,
  if◌then◌else◌, Option-cases, arith,
}
use solstarter.Solana.{ok, err, >>=-eq-ok, index-get_or, get_or-set, index_total}
use solstarter.Staking.Error.{underflow, into}
use solstarter.Staking.Math.{error_add, error_sub}
use solstarter.Staking.State.{StakePool, get_tier}
use solstarter.Staking.State.Tier.{get_tier_mono}
use solstarter.Staking.Processor.Lock.{
  leave_tier, enter_tier, change_tier, lock_tiers, raise_balance, unlock_tiers,
}

-- 1 at the tier given, 0 elsewhere.
abbrev pub hits : Option ℕ → ℕ → ℕ
hits none k = 0
hits (some tier) k = if tier == k then 1 else 0

abbrev pub users_at : StakePool → ℕ → ℕ
users_at p k = get_or 0 p.tier_users k

abbrev pub balance_at : StakePool → ℕ → ℕ
balance_at p k = get_or 0 p.tier_balance k

pub leave_tier-users :
    (tier : Option ℕ) (p : StakePool) (k : ℕ) {p' : StakePool}
    → leave_tier tier p ≡ ok p'
    → (users_at p' k + hits tier k ≡ users_at p k) × (p'.tier_balance ≡ p.tier_balance)
unfolding leave_tier
leave_tier-users none p k h = ground arith
leave_tier-users (some tier) p k h = grind (arith, index-get_or, get_or-set)

enter_tier-users :
    (tier : ℕ) (p : StakePool) (k : ℕ) {p' : StakePool}
    → enter_tier tier p ≡ ok p'
    → (users_at p' k ≡ users_at p k + hits (some tier) k) × (p'.tier_balance ≡ p.tier_balance)
unfolding enter_tier
enter_tier-users tier p k h = grind (arith, index-get_or, get_or-set)

raise_balance-users :
    (tier : Option ℕ) (p : StakePool) (k : ℕ) {p' : StakePool}
    → raise_balance tier p ≡ ok p'
    → (balance_at p' k ≡ balance_at p k + hits tier k) × (p'.tier_users ≡ p.tier_users)
unfolding raise_balance
raise_balance-users none p k h = ground arith
raise_balance-users (some tier) p k h = grind (arith, index-get_or, get_or-set)

error_sub-eq-ok : (a b : ℕ) {c : ℕ} → error_sub a b ≡ ok c → (b ≤ a) × (c ≡ a - b)
unfolding error_sub
error_sub-eq-ok a b h = ground arith

change_tier-users :
    (old new : Option ℕ) (p : StakePool) (k : ℕ) {p' : StakePool}
    → (new ≡ none → old ≡ none)
    → change_tier old new p ≡ ok p'
    → (users_at p' k + hits old k ≡ users_at p k + hits new k) × (p'.tier_balance ≡ p.tier_balance)
unfolding change_tier
change_tier-users old none p k none_old h = let e : old ≡ none = none_old refl in ground arith
change_tier-users old (some tier) p k none_old h =
    let (q, e, h₁) = >>=-eq-ok (leave_tier old p) _ h in
    let left = leave_tier-users old p k e in
    let entered = enter_tier-users tier q k h₁ in (omega arith, cc)

pub kept_tier :
    (balances : List ℕ) (x y : ℕ) → x ≤ y → get_tier balances y ≡ none → get_tier balances x ≡ none
kept_tier balances x y le lost = elim (Option-cases (get_tier balances x)) [
  | inl e ↦ e
  | inr (i, e) ↦ let (j, e', _) = get_tier_mono balances x y i le e in cc
]

-- Where `lock_tiers` succeeds for a lock that grows from `amount` by `added`, its user moves from the tier of the old amount to that
-- of the new one in the counts of tier users, for every tier, and the balances stay.
pub lock_tiers-users :
    (amount added : ℕ) (p : StakePool) (k : ℕ) {p' : StakePool}
    → lock_tiers amount added p ≡ ok p'
    → (users_at p' k + hits (get_tier p.tier_balance amount) k
        ≡ users_at p k + hits (get_tier p.tier_balance (amount + added)) k)
      × (p'.tier_balance ≡ p.tier_balance)
unfolding lock_tiers
lock_tiers-users amount added p k h =
    let (v, e, h₁) = >>=-eq-ok (error_add 64 amount added) _ h in
    let sum : v ≡ amount + added = ground arith in
    let h₂ = rw sum at h₁ in
    change_tier-users _ _ p k (kept_tier p.tier_balance amount (amount + added) (omega arith)) h₂

-- Where `unlock_tiers` succeeds for a lock that shrinks from `amount` by `removed`, its user leaves the tier of the old amount and is
-- counted in no tier; instead the balance of the tier of the new amount grows by one.
pub unlock_tiers-users :
    (amount removed : ℕ) (p : StakePool) (k : ℕ) {p' : StakePool}
    → unlock_tiers amount removed p ≡ ok p'
    → (removed ≤ amount)
      × (users_at p' k + hits (get_tier p.tier_balance amount) k ≡ users_at p k)
      × (balance_at p' k ≡ balance_at p k + hits (get_tier p.tier_balance (amount - removed)) k)
unfolding unlock_tiers
unlock_tiers-users amount removed p k h =
    let (q, e, h₁) = >>=-eq-ok (leave_tier (get_tier p.tier_balance amount) p) _ h in
    let (v, e₁, h₂) = >>=-eq-ok (error_sub amount removed) _ h₁ in
    let left = leave_tier-users (get_tier p.tier_balance amount) p k e in
    let (le, rest) = error_sub-eq-ok amount removed e₁ in
    let raised = raise_balance-users (get_tier q.tier_balance v) q k h₂ in
    let same : get_tier q.tier_balance v ≡ get_tier p.tier_balance (amount - removed) =
      rw (left.1, rest) in
    (le, ground arith, ground arith)

-- After a user who is alone in a tier has unlocked a part and kept the tier, any further unlock of
-- the lock fails: the count of the tier is zero by then and cannot be lowered.
pub unlock_tiers_strands_rest :
    (amount removed more tier : ℕ) (p : StakePool) {p' : StakePool}
    → get_tier p.tier_balance amount ≡ some tier
    → users_at p tier ≡ 1
    → unlock_tiers amount removed p ≡ ok p'
    → get_tier p'.tier_balance (amount - removed) ≡ some tier
    → tier < length p'.tier_users
    → unlock_tiers (amount - removed) more p' ≡ err (into underflow)
unfolding unlock_tiers
unlock_tiers_strands_rest amount removed more tier p {p'} old alone done kept inside =
    let (_, counted, _) = unlock_tiers-users amount removed p tier done in
    let empty : users_at p' tier ≡ 0 = ground arith in
    rw kept (ground (arith, index_total p'.tier_users tier inside))
