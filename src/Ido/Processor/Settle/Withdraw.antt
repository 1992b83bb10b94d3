-- ===== src/Ido/Processor/Settle/Withdraw.antt =====
-- What a successful `withdraw` of ido/program/src/processor.rs has checked and done.
use solstarter.Common.{ℕ, ◌≤◌, ◌<◌, ◌-◌, ◌≤ℤ◌, ◌≡◌, ◌≢◌, true, some, ltb_ℤ, ◌==◌, [], ◌∷◌, arith}
use solstarter.Solana.{
  World, Clock, TokenAccount, Runtime, Pubkey, ok, >>=-eq-ok, require-eq-ok, fail_if-eq-ok,
  is_owner, is_signer, read, read_unwrap,
}
use solstarter.Ido.Error.{
  wrong_market_address_for_current_pool, cant_withdraw_from_active_pool, wrong_market_owner, into,
}
use solstarter.Ido.Invoke.{token_transfer}
use solstarter.Ido.Math.{error_sub}
use solstarter.Ido.State.{Pool, check_initialized}
use solstarter.Ido.State.Sale.{success, was_started}
use solstarter.Ido.Processor.Shared.{Codecs}
use solstarter.Ido.Processor.Settle.{WithdrawAccounts, adjustment, withdraw}

-- What a withdrawal is to leave in the account `from` of a sale: the tokens counted as sold, if the sale
-- met its goal; the amounts collected, if it missed it.
pub record Owed (p : Pool) (from : Pubkey) (left : ℕ) : Type 0 where
  pub collection_met :
      from ≡ p.account_collection → p.goal_min_collected ≤ p.amount_collected → left ≡ 0
  pub distribution_met :
      from ≢ p.account_collection
      → p.goal_min_collected ≤ p.amount_collected
      → (from ≡ p.account_distribution) × (left ≡ p.amount_to_distribute)
  pub collection_missed :
      from ≡ p.account_collection
      → p.amount_collected < p.goal_min_collected
      → left ≡ p.amount_collected
  pub distribution_missed :
      from ≢ p.account_collection
      → p.amount_collected < p.goal_min_collected
      → (from ≡ p.account_distribution) × (left ≡ 0)

adjustment-Owed :
    (p : Pool) (from : Pubkey) {left : ℕ}
    → adjustment p from (success p) ≡ ok left
    → Owed p from left
unfolding adjustment success
adjustment-Owed p from h = ground arith

error_sub-ok : (a b : ℕ) {c : ℕ} → error_sub a b ≡ ok c → (b ≤ a) × (c ≡ a - b)
unfolding error_sub
error_sub-ok a b h = ground arith

module _ (rt : Runtime) (cs : Codecs) (program_id : Pubkey) (a : WithdrawAccounts) where
  -- A successful withdrawal is signed by the owner of the pool and comes after the end of its sale. It
  -- sends all that its account holds but the tokens counted as sold or the amounts collected.
  pub withdraw-Owed :
      (w w' : World)
      → withdraw rt cs program_id a w ≡ ok w'
      → (clock : Clock) × (p : Pool) × (t : TokenAccount) × (left : ℕ) × (rt.clock_from a.clock
            (w a.clock.key)
          ≡ ok clock)
        × (cs.pool.try_from_slice (w a.pool.key).bytes ≡ some p)
        × (a.pool_owner.is_signer ≡ true)
        × (a.pool_owner.key ≡ p.owner)
        × (p.time_finish ≤ℤ clock.unix_timestamp)
        × (rt.unpack_account (w a.account_from.key).bytes ≡ ok t)
        × Owed p a.account_from.key left
        × (left ≤ t.amount)
        × (token_transfer rt a.pool.key a.account_from a.account_to a.pool_authority
              p.authority_bump_seed
              (t.amount - left)
              w
            ≡ ok w')
  unfolding withdraw
  withdraw-Owed w w' h =
      let (_, _, h₁) = >>=-eq-ok (is_owner program_id (a.pool ∷ []) w) _ h in
      let (_, signed, h₂) = >>=-eq-ok (is_signer a.pool_owner) _ h₁ in
      let (clock, now, h₃) = >>=-eq-ok (rt.clock_from a.clock (w a.clock.key)) _ h₂ in
      let (p, stored, h₄) = >>=-eq-ok (read cs.pool a.pool w) _ h₃ in
      let (_, _, h₅) = >>=-eq-ok (was_started p clock.unix_timestamp) _ h₄ in
      let (m, _, h₆) = >>=-eq-ok (read_unwrap cs.market a.market w) _ h₅ in
      let (_, _, h₇) = >>=-eq-ok (check_initialized m.version) _ h₆ in
      let (market, h₈) =
        require-eq-ok (p.market == a.market.key) (into wrong_market_address_for_current_pool) _
          h₇ in
      let (owner, h₉) =
        require-eq-ok (a.pool_owner.key == p.owner) (into wrong_market_owner) _ h₈ in
      let (over, g₁) =
        fail_if-eq-ok (ltb_ℤ clock.unix_timestamp p.time_finish)
          (into cant_withdraw_from_active_pool) _ h₉ in
      let (t, unpacked, g₂) = >>=-eq-ok (rt.unpack_account (w a.account_from.key).bytes) _ g₁ in
      let (left, owes, g₃) = >>=-eq-ok (adjustment p a.account_from.key (success p)) _ g₂ in
      let (sent, rest, moved) = >>=-eq-ok (error_sub t.amount left) _ g₃ in
      let (le, e) = error_sub-ok t.amount left rest in
      (
        clock,
        p,
        t,
        left,
        now,
        ground (arith, stored),
        ground (arith, signed),
        ground (arith, owner),
        ground (arith, over),
        unpacked,
        adjustment-Owed p a.account_from.key owes,
        le,
        rw (← e) moved,
      )
