-- ===== src/Ido/Processor/Settle/Covered.antt =====
-- What `withdraw` of ido/program/src/processor.rs leaves for the claims of the participants of a sale.
use native.Mathlib.Decide.{ℕ_discrete, dec_le}
use solstarter.Common.{
  ℕ, ◌+◌, ◌≤◌, ◌<◌, ◌^◌, ◌≡◌, ◌≢◌, ◌⊎◌, inl, inr, some, List, sum, length, arith,
}
use solstarter.Solana.{World, TokenAccount, Runtime, Pubkey, ok, IsToken}
use solstarter.Ido.State.{Pool}
use solstarter.Ido.Processor.Shared.{Codecs}
use solstarter.Ido.Processor.Settle.{WithdrawAccounts, withdraw}
use solstarter.Ido.Processor.Settle.Withdraw.{Owed, withdraw-Owed}
use solstarter.Ido.Processor.Participate.History.{Sale, Claims, payments_covered}

-- What `left` in the account `from` of the sale of `p` is enough for. If the sale met its goal, the
-- account of the tokens sold holds what claims are paid in all, short by at most `slack`; if it missed
-- it, the account of the money collected holds what claims are refunded in all. The other account is
-- the owner's.
pub data Covers (p : Pool) (from : Pubkey) (left paid slack refunded : ℕ) : Type 0 where
  tokens :
      p.goal_min_collected ≤ p.amount_collected
      → from ≡ p.account_distribution
      → paid ≤ left + slack
      → Covers p from left paid slack refunded
  refunds :
      p.amount_collected < p.goal_min_collected
      → from ≡ p.account_collection
      → refunded ≤ left
      → Covers p from left paid slack refunded
  proceeds :
      p.goal_min_collected ≤ p.amount_collected
      → from ≡ p.account_collection
      → left ≡ 0
      → Covers p from left paid slack refunded
  unsold :
      p.amount_collected < p.goal_min_collected
      → from ≡ p.account_distribution
      → left ≡ 0
      → Covers p from left paid slack refunded

met_or_missed :
    (p : Pool)
    → (p.goal_min_collected ≤ p.amount_collected) ⊎ (p.amount_collected < p.goal_min_collected)
met_or_missed p = elim (dec_le p.goal_min_collected p.amount_collected) [
  | yes met ↦ inl met
  | no missed ↦ inr (omega arith)
]

Owed-Covers :
    (p : Pool) (from : Pubkey) (left paid slack refunded : ℕ)
    → Owed p from left
    → paid ≤ p.amount_to_distribute + slack
    → refunded ≤ p.amount_collected
    → Covers p from left paid slack refunded
Owed-Covers p from left paid slack refunded owed enough within =
    elim (ℕ_discrete from p.account_collection) [
      | yes e ↦ elim (met_or_missed p) [
        | inl met ↦ proceeds met e (owed.collection_met e met)
        | inr missed ↦ let same = owed.collection_missed e missed in refunds missed e (omega arith)
      ]
      | no ne ↦ elim (met_or_missed p) [
        | inl met ↦ let (e, same) = owed.distribution_met ne met in tokens met e (omega arith)
        | inr missed ↦
            let (e, none_left) = owed.distribution_missed ne missed in unsold missed e none_left
      ]
    ]

module _ (rt : Runtime) (cs : Codecs) (program_id : Pubkey) (a : WithdrawAccounts) where
  -- With a token program that takes from the source what it is told to, where the stored pool comes from
  -- one with nothing collected and nothing to distribute, whose goal and largest investment together fit
  -- a `u64`, by investments and starts at a positive price: after a successful withdrawal to another
  -- account, for claims of pool tokens that come to no more than the amount collected, the account drawn
  -- on, if the sale met its goal and it holds the tokens sold, still has all that the claims are paid but
  -- at most one token for each investment; if the sale missed its goal and it holds the money collected,
  -- all that the claims are refunded; and otherwise it is empty.
  pub withdraw_leaves_enough :
      (token : IsToken rt) (w w' : World) (start p : Pool) (amounts ys ds : List ℕ)
      → a.account_from.key ≢ a.account_to.key
      → cs.pool.try_from_slice (w a.pool.key).bytes ≡ some p
      → start.amount_collected ≡ 0
      → start.amount_to_distribute ≡ 0
      → start.goal_max_collected + start.amount_investment_max < 2 ^ 64
      → 0 < p.price
      → Sale start p amounts
      → sum ys ≤ p.amount_collected
      → Claims p ys ds
      → withdraw rt cs program_id a w ≡ ok w'
      → (t' : TokenAccount) × (rt.unpack_account (w' a.account_from.key).bytes ≡ ok t')
        × Covers p a.account_from.key t'.amount (sum ds) (length amounts) (sum ys)
  withdraw_leaves_enough token w w' start p amounts ys ds apart found none_collected none_sold room
        positive sale within claims done =
      let (clock, q, t, left, _, stored, _, _, _, unpacked, owed, le, moved) =
        withdraw-Owed rt cs program_id a w w' done in
      let same_pool : q ≡ p = ground (arith, stored, found) in
      let (t', after, total) = token.debits _ _ _ _ _ _ _ w w' t moved apart unpacked in
      let same : t'.amount ≡ left = omega arith in
      let enough =
        payments_covered start none_collected none_sold room ys ds positive sale within claims in
      (
        t',
        after,
        Owed-Covers p a.account_from.key t'.amount (sum ds) (length amounts) (sum ys)
            (rw (same, ← same_pool) owed) enough within,
      )
