-- ===== src/Solana/Patterns.antt =====
-- Small patterns that both programs share: ido/program/src/utils/program.rs, the `is_owner!` macro and
-- `same_key` of the processors, and reading and writing an account's data.
use solstarter.Common.{List, [], ◌∷◌, ◌==◌}
use solstarter.Solana.Outcome.{
  Result, ok, ◌>>=◌, ◌>>◌, ProgramError, require, ok_or, unwrap, incorrect_program_id,
  missing_required_signature, borsh_io_error,
}
use solstarter.Solana.Store.{Pubkey, World, AccountInfo, write_data}
use solstarter.Solana.Outside.{Call, Runtime, Codec}

-- The `is_owner!` macro, over its accounts in order.
abbrev pub is_owner : Pubkey → List AccountInfo → World → Result (Unit {0})
is_owner program_id [] w = ok tt
is_owner program_id (a ∷ rest) w = do
  require ((w a.key).owner == program_id) incorrect_program_id
  is_owner program_id rest w

-- `AccountPatterns::is_signer`.
abbrev pub is_signer : AccountInfo → Result (Unit {0})
is_signer a = require a.is_signer missing_required_signature

-- Errors if the relation is not as expected.
abbrev pub same_key : Pubkey → AccountInfo → ProgramError → Result (Unit {0})
same_key relation related e = require (relation == related.key) e

module _ {A : Type 0} (codec : Codec A) where
  -- `A::try_from_slice(&account.data.borrow())?`, and the same with `unwrap()`.
  abbrev pub read : AccountInfo → World → Result A
  read a w = ok_or (codec.try_from_slice (w a.key).bytes) borsh_io_error

  abbrev pub read_unwrap : AccountInfo → World → Result A
  read_unwrap a w = unwrap (codec.try_from_slice (w a.key).bytes)

  -- `state.serialize(&mut *account.data.borrow_mut())?`.
  abbrev pub write : A → AccountInfo → World → Result World
  write state a w = do
    bytes ← ok_or (codec.serialize state (w a.key).bytes) borsh_io_error
    ok (write_data w a.key bytes)

  -- The same with `unwrap()`.
  abbrev pub write_unwrap : A → AccountInfo → World → Result World
  write_unwrap state a w = do
    bytes ← unwrap (codec.serialize state (w a.key).bytes)
    ok (write_data w a.key bytes)

-- `solana_program::program::invoke`: a call with no signatures of its own.
abbrev pub invoke : Runtime → Call → List AccountInfo → World → Result World
invoke rt call accounts w = rt.invoke_signed call accounts [] w
