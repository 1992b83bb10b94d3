-- ===== src/Ido/Processor/Settle/Claim.antt =====
-- What a successful `claim` of ido/program/src/processor.rs has checked and done.
use solstarter.Common.{
  ℕ, ◌≤◌, ◌<◌, ◌≤ℤ◌, ◌≡◌, refl, ◌⊎◌, inl, inr, Bool, true, false, some, leb, ltb_ℤ, ◌==◌, [], ◌∷◌,
  arith,
}
use solstarter.Solana.{
  World, Clock, TokenAccount, Runtime, Pubkey, ok, >>=-eq-ok, require-eq-ok, fail_if-eq-ok,
  is_owner, read,
}
use solstarter.Ido.Error.{
  wrong_market_address_for_current_pool, cant_claim_from_active_pool, wrong_pool_token_mint,
  wrong_pool_account_to_send_tokens_from, into,
}
use solstarter.Ido.Invoke.{token_transfer, burn_tokens_with_user_authority}
use solstarter.Ido.State.{Pool}
use solstarter.Ido.State.Sale.{collected_to_distributed, was_started}
use solstarter.Ido.Processor.Shared.{Codecs}
use solstarter.Ido.Processor.Settle.{ClaimAccounts, pay_claim, claim}

module _ (rt : Runtime) (cs : Codecs) (program_id : Pubkey) (a : ClaimAccounts) where
  -- A claim of `amount` pool tokens on a sale that met its goal is paid in the tokens they bought, from
  -- the distribution account; on one that missed it, it is refunded from the collection account.
  abbrev pub Pays : Pool → ℕ → World → World → Type 0
  Pays p amount w w' =
      ((p.goal_min_collected ≤ p.amount_collected)
        × (a.account_pool.key ≡ p.account_distribution)
        × (d : ℕ) × (collected_to_distributed p amount ≡ ok d)
        × (token_transfer rt a.pool.key a.account_pool a.account_to a.pool_authority
              p.authority_bump_seed d w
            ≡ ok w'))
      ⊎ ((p.amount_collected < p.goal_min_collected)
          × (a.account_pool.key ≡ p.account_collection)
          × (token_transfer rt a.pool.key a.account_pool a.account_to a.pool_authority
                p.authority_bump_seed amount w
              ≡ ok w'))

  pay_claim-Pays :
      (met : Bool) (p : Pool) (amount : ℕ) (w w' : World)
      → leb p.goal_min_collected p.amount_collected ≡ met
      → pay_claim rt cs program_id met a p amount w ≡ ok w'
      → Pays p amount w w'
  unfolding pay_claim
  pay_claim-Pays true p amount w w' met h =
      let (key, h₁) =
        require-eq-ok (a.account_pool.key == p.account_distribution)
          (into wrong_pool_account_to_send_tokens_from) _ h in
      let (d, bought, sent) = >>=-eq-ok (collected_to_distributed p amount) _ h₁ in
      inl (ground arith, ground arith, d, bought, sent)
  pay_claim-Pays false p amount w w' missed h =
      let (key, sent) =
        require-eq-ok (a.account_pool.key == p.account_collection)
          (into wrong_pool_account_to_send_tokens_from) _ h in
      inr (ground arith, ground arith, sent)

  -- A successful claim comes after the end of the sale of a pool of this market, burns all pool tokens
  -- of the account given, and then pays for exactly those.
  pub claim-Pays :
      (w w' : World)
      → claim rt cs program_id a w ≡ ok w'
      → (clock : Clock) × (p : Pool) × (t : TokenAccount) × (burnt : World) × (rt.clock_from a.clock
            (w a.clock.key)
          ≡ ok clock)
        × (cs.pool.try_from_slice (w a.pool.key).bytes ≡ some p)
        × (p.market ≡ a.market.key)
        × (p.time_finish ≤ℤ clock.unix_timestamp)
        × (a.mint_pool.key ≡ p.mint_pool)
        × (rt.unpack_account (w a.account_from.key).bytes ≡ ok t)
        × (burn_tokens_with_user_authority rt a.account_from a.mint_pool a.user_authority t.amount w
            ≡ ok burnt)
        × Pays p t.amount burnt w'
  unfolding claim
  claim-Pays w w' h =
      let (_, _, h₁) = >>=-eq-ok (is_owner program_id (a.pool ∷ a.market ∷ []) w) _ h in
      let (clock, now, h₂) = >>=-eq-ok (rt.clock_from a.clock (w a.clock.key)) _ h₁ in
      let (p, stored, h₃) = >>=-eq-ok (read cs.pool a.pool w) _ h₂ in
      let (_, _, h₄) = >>=-eq-ok (was_started p clock.unix_timestamp) _ h₃ in
      let (market, h₅) =
        require-eq-ok (p.market == a.market.key) (into wrong_market_address_for_current_pool) _
          h₄ in
      let (over, h₆) =
        fail_if-eq-ok (ltb_ℤ clock.unix_timestamp p.time_finish) (into cant_claim_from_active_pool)
          _ h₅ in
      let (mint, h₇) =
        require-eq-ok (a.mint_pool.key == p.mint_pool) (into wrong_pool_token_mint) _ h₆ in
      let (t, unpacked, h₈) = >>=-eq-ok (rt.unpack_account (w a.account_from.key).bytes) _ h₇ in
      let (burnt, burns, pays) =
        >>=-eq-ok
          (burn_tokens_with_user_authority rt a.account_from a.mint_pool a.user_authority t.amount
            w)
          _ h₈ in
      (
        clock,
        p,
        t,
        burnt,
        now,
        ground (arith, stored),
        ground (arith, market),
        ground (arith, over),
        ground (arith, mint),
        unpacked,
        burns,
        pay_claim-Pays _ p t.amount burnt w' refl pays,
      )
