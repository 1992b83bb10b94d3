-- ===== src/Tests/Kyc.antt =====
-- The theorems on KYC records at concrete stores, over the runtime of Tests/Platform.antt.
use solstarter.Common.{
  ℕ, pos, pos_part, ◌≡◌, ◌≤ℤ◌, ◌==◌, if◌then◌else◌, refl, sym, true, false, none, some, Option, [],
  ◌∷◌, arith,
}
use solstarter.Solana.{
  Pubkey, Bytes, Account, World, AccountInfo, Clock, Codec, Result, ok, IsLawful,
}
use solstarter.Ido.Instruction.{CreateMarketUserKyc}
use solstarter.Ido.State.{Market, MarketUserKyc, check_uninitialized}
use solstarter.Ido.Processor.Shared.{Codecs, validate_market_owner}
use solstarter.Ido.Processor.Participate.{ParticipateAccounts, check_kyc}
use solstarter.Ido.Processor.Kyc.{
  CreateKycAccounts, DeleteKycAccounts, create_market_user_kyc, delete_market_user_kyc,
}
use solstarter.Ido.Processor.Kyc.Verifies.{create_market_user_kyc-check_kyc}
use solstarter.Tests.Platform.{runtime, run_call, system_program, runtime-IsSystem}
use native.Mathlib.Decide.{ℕ_discrete}
use mathlib.Core.Logic.{ite}

abbrev kyc_until : ℕ → MarketUserKyc
kyc_until t = record { version = 1; market = 11; user_wallet = 33; expiration = pos t }

unfoldable Kyc-discrete : Discrete MarketUserKyc
Kyc-discrete = hlevel ℕ_discrete

abbrev decode : Bytes → Option MarketUserKyc
decode [] = some (record { version = 0; market = 0; user_wallet = 0; expiration = pos 0 })
decode (t ∷ rest) = some (kyc_until t)

abbrev encode : MarketUserKyc → Bytes → Option Bytes
encode kyc b =
    ite (Kyc-discrete kyc (kyc_until (pos_part kyc.expiration)))
      (some (pos_part kyc.expiration ∷ [])) none

abbrev kyc_codec : Codec MarketUserKyc
kyc_codec = record { try_from_slice = decode; serialize = encode }

kyc_written :
    (new : MarketUserKyc) (b b' : Bytes)
    → Dec (new ≡ kyc_until (pos_part new.expiration))
    → encode new b ≡ some b'
    → some new ≡ decode b'
kyc_written new b b' (yes e) put = ground arith
kyc_written new b b' (no ne) put = ground arith

kyc_codec-IsLawful : IsLawful kyc_codec
kyc_codec-IsLawful = record {
  reads_back = λ old new b b' was put.
      sym (kyc_written new b b' (Kyc-discrete new (kyc_until (pos_part new.expiration))) put);
}

abbrev market : Market
market = record { version = 1; owner = 19; stake_pool = 13 }

abbrev codecs : Codecs
codecs = record {
  market = record { try_from_slice = λ b. some market; serialize = λ m b. some b };
  pool = record { try_from_slice = λ b. none; serialize = λ p b. none };
  market_user_kyc = kyc_codec;
  stake_pool = record { try_from_slice = λ b. none; serialize = λ s b. none };
  pool_lock = record { try_from_slice = λ b. none; serialize = λ l b. none };
}

-- The key of the IDO program in these stores.
abbrev ido : Pubkey
ido = 5

abbrev entry : Pubkey → ℕ → Bytes → Account
entry owner lamports b = record { owner = owner; lamports = lamports; bytes = b }

abbrev info : Pubkey → AccountInfo
info k = record { key = k; is_signer = false }

abbrev owner : AccountInfo
owner = record { key = 19; is_signer = true }

-- The market under 11, the record of user 33 under 6044, and the time under 40.
abbrev before : World
before k =
    if k == 11
    then entry ido 1 []
    else if k == 40
    then entry system_program 1 (500 ∷ [])
    else entry system_program 0 []

abbrev left : Result World → World
left (ok w) = w
left _ = before

abbrev create_accounts : CreateKycAccounts
create_accounts = record {
  market = info 11;
  market_owner = owner;
  market_user_kyc = info 6044;
  market_user_authority = info 1044;
  user_wallet = info 33;
  rent = info 41;
  clock = info 40;
}

abbrev until : CreateMarketUserKyc
until = record { expiration = pos 900 }

unfoldable created : World
unfolding create_market_user_kyc validate_market_owner check_uninitialized run_call Kyc-discrete
    ℕ_discrete
created = left (create_market_user_kyc runtime codecs ido create_accounts until before)

create_runs : create_market_user_kyc runtime codecs ido create_accounts until before ≡ ok created
unfolding create_market_user_kyc created validate_market_owner check_uninitialized run_call
    Kyc-discrete ℕ_discrete
create_runs = refl

abbrev participants : ParticipateAccounts
participants = record {
  market = info 11;
  pool = info 10;
  pool_authority = info 1010;
  pool_user_authority = info 1043;
  user_wallet = info 33;
  user_account_from = info 61;
  account_collection = info 62;
  user_account_to = info 63;
  pool_lock_account = info 64;
  mint_pool = info 65;
  market_user_kyc = info 6044;
  user_pool_stage = info 6043;
  pool_lock = info 66;
  stake_pool = info 13;
  rent = info 41;
  clock = info 40;
  account_whitelist = none;
  account_mint_whitelist = none;
}

abbrev at_800 : Clock
at_800 = record { unix_timestamp = pos 800 }

-- A later store, in which other accounts have changed.
abbrev later : World
later k = if k == 6044 then created 6044 else before 0

create_market_user_kyc-check_kyc_example :
    (now : Clock) × (m : Market) × (runtime.clock_from (info 40) (before 40) ≡ ok now)
    × (now.unix_timestamp ≤ℤ pos 900)
    × (owner.is_signer ≡ true)
    × (owner.key ≡ m.owner)
    × (some market ≡ some m)
    × (check_kyc runtime codecs ido true participants at_800 later ≡ ok tt)
create_market_user_kyc-check_kyc_example =
    create_market_user_kyc-check_kyc runtime runtime-IsSystem codecs kyc_codec-IsLawful ido
      create_accounts until before created participants at_800 later create_runs refl refl refl
      (omega arith) refl refl

abbrev delete_accounts : DeleteKycAccounts
delete_accounts = record {
  market = info 11;
  market_user_authority = info 1044;
  market_user_kyc = info 6044;
  market_owner = owner;
  user_wallet = info 33;
}

unfoldable deleted : World
unfolding delete_market_user_kyc created validate_market_owner
deleted = left (delete_market_user_kyc runtime codecs ido delete_accounts created)
