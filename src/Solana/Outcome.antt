-- ===== src/Solana/Outcome.antt =====
-- `Result<T, ProgramError>` with the `?` operator, and a panic (a failed `unwrap`, an index out of
-- bounds), which aborts the instruction.
use solstarter.Common.{
  ℕ, ◌≡◌, refl, Bool, true, false, Option, none, some, List, [], ◌∷◌, zero, suc, set, get_or, ◌==◌,
  ◌<◌, length, if◌then◌else◌, arith,
}

-- The variants of `solana_program::program_error::ProgramError`.
pub data ProgramError : Type 0 where
  custom : ℕ → ProgramError
  invalid_argument invalid_instruction_data invalid_account_data : ProgramError
  account_data_too_small insufficient_funds incorrect_program_id : ProgramError
  missing_required_signature account_already_initialized uninitialized_account : ProgramError
  not_enough_account_keys account_borrow_failed max_seed_length_exceeded : ProgramError
  invalid_seeds borsh_io_error account_not_rent_exempt : ProgramError

pub data Result {ℓ} (T : Type ℓ) : Type ℓ where
  panic : Result T
  err : ProgramError → Result T
  ok : T → Result T

-- `if test { return Err(e) }`.
abbrev pub fail_if : Bool → ProgramError → Result (Unit {0})
fail_if false e = ok tt
fail_if true e = err e

infixl 5 ◌>>=◌ ◌>>◌
-- `step?`, with what follows it.
abbrev pub ◌>>=◌ {ℓ κ} : {T : Type ℓ} {U : Type κ} → Result T → (T → Result U) → Result U
panic >>= next = panic
err e >>= next = err e
ok value >>= next = next value

-- `if !test { return Err(e) }`.
abbrev pub require : Bool → ProgramError → Result (Unit {0})
require false e = err e
require true e = ok tt

abbrev pub ◌>>◌ {ℓ} : {U : Type ℓ} → Result (Unit {0}) → Result U → Result U
check >> next = check >>= λ _. next

-- `option.ok_or(e)`.
abbrev pub ok_or {ℓ} : {A : Type ℓ} → Option A → ProgramError → Result A
ok_or none e = err e
ok_or (some a) e = ok a

-- `option.unwrap()`.
abbrev pub unwrap {ℓ} : {A : Type ℓ} → Option A → Result A
unwrap none = panic
unwrap (some a) = ok a

-- `array[i]`.
abbrev pub index {ℓ} : {A : Type ℓ} → List A → ℕ → Result A
index [] i = panic
index (x ∷ xs) zero = ok x
index (x ∷ xs) (suc i) = index xs i

-- What a successful step says of its parts.
pub >>=-eq-ok {ℓ κ} :
    {T : Type ℓ} {U : Type κ} (step : Result T) (next : T → Result U) {result : U}
    → (step >>= next) ≡ ok result
    → (value : T) × (step ≡ ok value) × (next value ≡ ok result)
>>=-eq-ok panic next done = cc
>>=-eq-ok (err e) next done = cc
>>=-eq-ok (ok value) next done = (value, refl, done)

-- A step and what follows it, regrouped.
pub >>=-regroup {ℓ κ μ} :
    {T : Type ℓ} {U : Type κ} {V : Type μ} (step : Result T) (f : T → Result U) (g : U → Result V)
    (h : T → Result V)
    → ((value : T) → (f value >>= g) ≡ h value)
    → ((step >>= f) >>= g) ≡ (step >>= h)
>>=-regroup panic f g h same = refl
>>=-regroup (err e) f g h same = refl
>>=-regroup (ok value) f g h same = same value

pub require-eq-ok {ℓ} :
    {B : Type ℓ} (t : Bool) (e : ProgramError) (k : Result B) {b : B}
    → (require t e >> k) ≡ ok b
    → (t ≡ true) × (k ≡ ok b)
require-eq-ok true e k h = (refl, h)
require-eq-ok false e k h = cc

pub fail_if-eq-ok {ℓ} :
    {B : Type ℓ} (t : Bool) (e : ProgramError) (k : Result B) {b : B}
    → (fail_if t e >> k) ≡ ok b
    → (t ≡ false) × (k ≡ ok b)
fail_if-eq-ok true e k h = cc
fail_if-eq-ok false e k h = (refl, h)

-- An array's entry, and what a write to it leaves of the others.
pub index-get_or : (xs : List ℕ) (i : ℕ) {old : ℕ} → index xs i ≡ ok old → get_or 0 xs i ≡ old
index-get_or [] i h = cc
index-get_or (x ∷ xs) zero h = cc
index-get_or (x ∷ xs) (suc i) h = index-get_or xs i h

pub get_or-set :
    (xs : List ℕ) (i v k : ℕ) {old : ℕ}
    → index xs i ≡ ok old
    → get_or 0 (set xs i v) k ≡ (if i == k then v else get_or 0 xs k)
get_or-set [] i v k h = cc
get_or-set (x ∷ xs) zero v zero h = ground arith
get_or-set (x ∷ xs) zero v (suc k) h = ground arith
get_or-set (x ∷ xs) (suc i) v zero h = ground arith
get_or-set (x ∷ xs) (suc i) v (suc k) h = ground (arith, get_or-set xs i v k h)

pub index_total : (xs : List ℕ) (i : ℕ) → i < length xs → index xs i ≡ ok (get_or 0 xs i)
index_total [] i h = absurd (omega arith)
index_total (x ∷ xs) zero h = refl
index_total (x ∷ xs) (suc i) h = index_total xs i (omega arith)
