-- ===== src/Tests/Platform.antt =====
-- A small runtime: token accounts are two numbers, the mint and the amount.
use solstarter.Common.{
  ℕ, refl, ◌+◌, ◌-◌, ◌≡◌, ◌≢◌, sym, ap, ◌∙◌, pos, true, [], ◌∷◌, sum, ◌==◌, checked_add,
  checked_sub, arith,
}
use solstarter.Solana.{
  Pubkey, Bytes, World, update, Clock, TokenAccount, Mint, Runtime, Call, create_account,
  transfer_lamports, create_account_with_seed, initialize_account, initialize_mint, transfer,
  mint_to, burn, start_pool, Result, ok, err, require, ok_or, ◌>>=◌, ◌>>◌, custom,
  invalid_account_data, invalid_argument, insufficient_funds, incorrect_program_id, IsIsolated,
  IsToken, IsTokenInit, IsTokenBurn, IsSystem, IsSystemFree, IsClock, >>=-eq-ok, callee,
}

abbrev pub system_program : Pubkey
system_program = 1

abbrev pub token_program : Pubkey
token_program = 2

abbrev pub token_of : Bytes → Result TokenAccount
token_of (m ∷ n ∷ []) = ok (record { mint = m; amount = n })
token_of _ = err invalid_account_data

abbrev pub mint_of : Bytes → Result Mint
mint_of (d ∷ []) = ok (record { decimals = d; is_initialized = true })
mint_of _ = err invalid_account_data

abbrev pub clock_of : Bytes → Result Clock
clock_of (t ∷ []) = ok (record { unix_timestamp = pos t })
clock_of _ = err invalid_argument

abbrev set_amount : World → Pubkey → TokenAccount → ℕ → World
set_amount w k t n =
    update w k
      (record { owner = token_program; lamports = (w k).lamports; bytes = t.mint ∷ n ∷ [] })

-- A token account of the token program.
abbrev open_token : Pubkey → World → Result TokenAccount
open_token k w = do
  require ((w k).owner == token_program) incorrect_program_id
  token_of (w k).bytes

unfoldable pub debit : Pubkey → ℕ → World → Result World
debit k n w = do
  t ← open_token k w
  rest ← ok_or (checked_sub t.amount n) insufficient_funds
  ok (set_amount w k t rest)

unfoldable pub credit : Pubkey → ℕ → World → Result World
credit k n w = do
  t ← open_token k w
  total ← ok_or (checked_add 64 t.amount n) invalid_argument
  ok (set_amount w k t total)

unfoldable pub run_call : Call → World → Result World
unfolding debit credit
run_call (create_account_with_seed from to base seed lamports space owner) w = do
  require ((w to).owner == system_program) (custom 0)
  ok (update w to (record { owner = owner; lamports = lamports; bytes = [] }))
run_call (create_account from to lamports space owner) w = do
  require ((w to).owner == system_program) (custom 0)
  ok (update w to (record { owner = owner; lamports = lamports; bytes = [] }))
run_call (transfer_lamports from to lamports) w = do
  rest ← ok_or (checked_sub (w from).lamports lamports) (custom 1)
  let w' = update w from (record (w from) { lamports = rest })
  ok (update w' to (record (w' to) { lamports = (w' to).lamports + lamports }))
run_call (transfer source destination authority signers n) w = do
  w' ← debit source n w
  credit destination n w'
run_call (mint_to mint destination authority signers n) w = credit destination n w
run_call (burn account mint authority signers n) w = debit account n w
run_call (initialize_account account mint owner) w = do
  require ((w account).owner == token_program) incorrect_program_id
  ok (
      update w account
        (record { owner = token_program; lamports = (w account).lamports; bytes = mint ∷ 0 ∷ [] }))
run_call (initialize_mint mint authority decimals) w = do
  require ((w mint).owner == token_program) incorrect_program_id
  ok (
      update w mint
        (record { owner = token_program; lamports = (w mint).lamports; bytes = decimals ∷ [] }))
run_call (start_pool _ _ _) w = ok w

abbrev pub runtime : Runtime
runtime = record {
  clock_from = λ a account. clock_of account.bytes;
  rent_from = λ a account. ok (record { is_exempt = λ _ _. true; minimum_balance = λ _. 1 });
  unpack_account = token_of;
  unpack_account_from_slice = token_of;
  unpack_mint = mint_of;
  unpack_mint_from_slice = mint_of;
  find_program_address = λ keys owner. (sum keys + 1000, 255);
  create_with_seed = λ base seed owner. ok (base + 5000);
  account_already_in_use = 0;
  invoke_signed = λ c accounts seeds w. run_call c w;
}

debit_keeps :
    (j n : ℕ) (w w' : World) (k : Pubkey)
    → debit j n w ≡ ok w'
    → (w k).owner ≢ token_program
    → ((w' k).owner ≡ (w k).owner) × ((w' k).bytes ≡ (w k).bytes)
unfolding debit
debit_keeps j n w w' k h other = ground arith

credit_keeps :
    (j n : ℕ) (w w' : World) (k : Pubkey)
    → credit j n w ≡ ok w'
    → (w k).owner ≢ token_program
    → ((w' k).owner ≡ (w k).owner) × ((w' k).bytes ≡ (w k).bytes)
unfolding credit
credit_keeps j n w w' k h other = ground arith

run_call_keeps :
    (c : Call) (w w' : World) (k : Pubkey)
    → run_call c w ≡ ok w'
    → (w k).owner ≢ callee system_program token_program 3 c
    → ((w' k).owner ≡ (w k).owner) × ((w' k).bytes ≡ (w k).bytes)
unfolding run_call
run_call_keeps (create_account_with_seed from to base seed lamports space owner) w w' k h other =
    ground arith
run_call_keeps (create_account from to lamports space owner) w w' k h other = ground arith
run_call_keeps (transfer_lamports from to lamports) w w' k h other = ground arith
run_call_keeps (transfer s d authority signers n) w w' k h other =
    let (u, e, h₁) = >>=-eq-ok (debit s n w) _ h in
    let (o, b) = debit_keeps s n w u k e other in
    let (o', b') = credit_keeps d n u w' k h₁ (rw o other) in (o' ∙ o, b' ∙ b)
run_call_keeps (mint_to mint destination authority signers n) w w' k h other =
    credit_keeps destination n w w' k h other
run_call_keeps (burn account mint authority signers n) w w' k h other =
    debit_keeps account n w w' k h other
run_call_keeps (initialize_account account mint owner) w w' k h other = ground arith
run_call_keeps (initialize_mint mint authority decimals) w w' k h other = ground arith
run_call_keeps (start_pool _ _ _) w w' k h other = ground arith

-- The rule of ownership holds of this runtime.
pub runtime-IsIsolated : IsIsolated system_program token_program 3 runtime
unfolding run_call
runtime-IsIsolated = record {
  keeps_foreign = λ c accounts seeds w w' k h other. run_call_keeps c w w' k h other;
}

debit_amount :
    (k n : ℕ) (w w' : World) (t : TokenAccount)
    → debit k n w ≡ ok w'
    → token_of (w k).bytes ≡ ok t
    → (t' : TokenAccount) × (token_of (w' k).bytes ≡ ok t') × (t'.amount + n ≡ t.amount)
unfolding debit
debit_amount k n w w' t h e = (record t { amount = t.amount - n }, ground arith, ground arith)

credit_amount :
    (k n : ℕ) (w w' : World) (t : TokenAccount)
    → credit k n w ≡ ok w'
    → token_of (w k).bytes ≡ ok t
    → (t' : TokenAccount) × (token_of (w' k).bytes ≡ ok t') × (t'.amount ≡ t.amount + n)
unfolding credit
credit_amount k n w w' t h e = (record t { amount = t.amount + n }, ground arith, ground arith)

debit_others : (k j n : ℕ) (w w' : World) → debit k n w ≡ ok w' → k ≢ j → w' j ≡ w j
unfolding debit
debit_others k j n w w' h apart = ground arith

credit_others : (k j n : ℕ) (w w' : World) → credit k n w ≡ ok w' → k ≢ j → w' j ≡ w j
unfolding credit
credit_others k j n w w' h apart = ground arith

-- So does that of created accounts.
pub runtime-IsSystem : IsSystem runtime
unfolding run_call
runtime-IsSystem = record {
  creates = λ source created base seed lamports space owner accounts seeds w w' h. ground arith;
}

pub runtime-IsSystemFree : IsSystemFree system_program runtime
unfolding run_call
runtime-IsSystemFree = record {
  was_free = λ source created base seed lamports space owner accounts seeds w w' h. ground arith;
}

-- So does that of the clock.
pub runtime-IsClock : IsClock runtime
runtime-IsClock = record { reads_data = λ info account account' same. ap clock_of same }

-- So does that of initialized token accounts.
pub runtime-IsTokenInit : IsTokenInit runtime
unfolding run_call
runtime-IsTokenInit = record {
  initializes = λ account mint owner accounts seeds w w' h.
      (record { mint = mint; amount = 0 }, ground arith, refl);
}

-- So does that of burning.
pub runtime-IsTokenBurn : IsTokenBurn runtime
unfolding run_call
runtime-IsTokenBurn = record {
  burns = λ account mint authority signers n accounts seeds w w' k h apart _.
      ap (λ a. a.bytes) (debit_others account k n w w' h (λ e. apart (sym e)));
}

-- So do those of transfers.
pub runtime-IsToken : IsToken runtime
unfolding run_call
runtime-IsToken = record {
  unpacks = λ b t h. h;
  mints = λ m d authority signers n accounts seeds w w' k h not_mint not_destination.
      ap (λ a. a.bytes) (credit_others d k n w w' h (λ e. not_destination (sym e)));
  debits = λ s d authority signers n accounts seeds w w' t h apart e.
      let (u, e₁, h₁) = >>=-eq-ok (debit s n w) _ h in
      let (t', e', sum) = debit_amount s n w u t e₁ e in
      (t', rw (credit_others d s n u w' h₁ (λ p. apart (sym p))) e', sum);
  credits = λ s d authority signers n accounts seeds w w' t h apart e.
      let (u, e₁, h₁) = >>=-eq-ok (debit s n w) _ h in
      credit_amount d n u w' t h₁ (rw (debit_others s d n w u e₁ apart) e);
}
