-- ===== src/Common/Words.antt =====
-- Checked arithmetic on unsigned words of `w` bits, as the methods of Rust's `u32`, `u64`, `u128`.
use Prim.Native.Nat.{ℕ, ◌+◌, ◌-◌, ◌*◌, ◌/◌, ◌%◌, ◌^◌, ◌<◌}
use mathlib.Core.Option.{Option, none, some}
use solstarter.Common.Tests.{ltb, leb, ◌==◌, if◌then◌else◌}

abbrev pub IsWord : ℕ → ℕ → Type 0
IsWord w a = a < 2 ^ w

abbrev pub checked_add : ℕ → ℕ → ℕ → Option ℕ
checked_add w a b = if ltb (a + b) (2 ^ w) then some (a + b) else none

abbrev pub checked_sub : ℕ → ℕ → Option ℕ
checked_sub a b = if leb b a then some (a - b) else none

abbrev pub checked_mul : ℕ → ℕ → ℕ → Option ℕ
checked_mul w a b = if ltb (a * b) (2 ^ w) then some (a * b) else none

abbrev pub checked_div : ℕ → ℕ → Option ℕ
checked_div a b = if b == 0 then none else some (a / b)

-- `try_from` a wider word, and `+` in a build with no overflow checks.
abbrev pub try_from : ℕ → ℕ → Option ℕ
try_from w a = if ltb a (2 ^ w) then some a else none

abbrev pub wrapping_add : ℕ → ℕ → ℕ → ℕ
wrapping_add w a b = (a + b) % 2 ^ w
