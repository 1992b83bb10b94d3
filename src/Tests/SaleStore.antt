-- ===== src/Tests/SaleStore.antt =====
-- Codecs and a store of the IDO program, over the runtime of Tests/Platform.antt.
use solstarter.Common.{ℕ, ◌==◌, if◌then◌else◌, true, false, none, some, List, [], ◌∷◌}
use solstarter.Solana.{Pubkey, Bytes, Account, World, AccountInfo, Codec, Result, ok, err}
use solstarter.Ido.State.{Market}
use solstarter.Ido.Processor.Shared.{Codecs}
use solstarter.Tests.Platform.{token_program, system_program}
use solstarter.Tests.Codec.{pool_codec}

abbrev market_codec : Codec Market
market_codec = record {
  try_from_slice = λ b. some (record { version = 1; owner = 19; stake_pool = 13 });
  serialize = λ m b. some b;
}

abbrev pub codecs : Codecs
codecs = record {
  market = market_codec;
  pool = pool_codec;
  market_user_kyc = record { try_from_slice = λ b. none; serialize = λ k b. none };
  stake_pool = record { try_from_slice = λ b. none; serialize = λ s b. none };
  pool_lock = record { try_from_slice = λ b. none; serialize = λ l b. none };
}

-- The key of the IDO program in these stores.
abbrev pub ido : Pubkey
ido = 5

abbrev entry : Pubkey → Bytes → Account
entry owner b = record { owner = owner; lamports = 1; bytes = b }

abbrev pub info : Pubkey → AccountInfo
info k = record { key = k; is_signer = false }

abbrev pub signing : Pubkey → AccountInfo
signing k = record { key = k; is_signer = true }

-- A pool under 10, its market under 11, the pool's tokens under 16 and 17, the user's tokens of the sale
-- under 30 and pool tokens under 32, the owner's tokens under 34, and the time under 40.
abbrev at_key : List (Pubkey × Account) → World
at_key [] k = entry system_program []
at_key ((j, a) ∷ rest) k = if j == k then a else at_key rest k

abbrev pub store : ℕ → Bytes → ℕ → ℕ → World
store now pool collected distribution = at_key (
    (10, entry ido pool)
    ∷ (11, entry ido [])
    ∷ (16, entry token_program (61 ∷ collected ∷ []))
    ∷ (17, entry token_program (62 ∷ distribution ∷ []))
    ∷ (30, entry token_program (61 ∷ 500 ∷ []))
    ∷ (31, entry token_program (62 ∷ 0 ∷ []))
    ∷ (32, entry token_program (18 ∷ 20 ∷ []))
    ∷ (34, entry token_program (61 ∷ 3 ∷ []))
    ∷ (40, entry system_program (now ∷ []))
    ∷ [])

-- The store that a handler leaves, or the one it began with.
abbrev pub left : World → Result World → World
left w (ok w') = w'
left w (err e) = w
left w Result.panic = w
