-- ===== src/Tests/Dispatch.antt =====
-- Building, dispatching and refusing instructions at concrete requests, over the runtime of
-- Tests/Platform.antt and the encodings of Tests/Encoding.antt.
use Prim.Native.String.{String}
use solstarter.Common.{ℕ, zero, suc, false, ◌≡◌, refl, Bool, true, none, some, List, [], ◌∷◌, arith}
use solstarter.Solana.{
  Pubkey, World, AccountInfo, ProgramIds, err, ◌>>=◌, infos, new, not_enough_account_keys,
}
use solstarter.Staking.Instruction as Staking
use solstarter.Staking.Processor.Shared as StakingShared
use solstarter.Staking.Processor.Dispatch as StakingDispatch
use solstarter.Staking.Processor.Dispatch.Requests as StakingRequests
use solstarter.Staking.Processor.Dispatch.Built.{process_instruction-build}
use solstarter.Staking.Processor.Dispatch.Few.{process_instruction_refuses}
use solstarter.Ido.Instruction as Ido
use solstarter.Ido.Processor.Shared as IdoShared
use solstarter.Ido.Processor.Dispatch as IdoDispatch
use solstarter.Ido.Processor.Dispatch.Requests as IdoRequests
use solstarter.Ido.Processor.Dispatch.Built.{built_instruction_runs}
use solstarter.Ido.Processor.Dispatch.Few.{few_accounts_refused}
use solstarter.Tests.Platform.{runtime, system_program, token_program}
use solstarter.Tests.Encoding.{
  staking_codec, staking_codec-IsInverse, ido_codec, ido_codec-IsInverse,
}

abbrev pub ids : ProgramIds
ids = record { rent = 41; clock = 40; spl_token = token_program; system_program = system_program }

abbrev staking_codecs : StakingShared.Codecs
staking_codecs = record {
  stake_pool = record { try_from_slice = λ b. none; serialize = λ s b. some b };
  pool_transit = record { try_from_slice = λ b. none; serialize = λ s b. some b };
  pool_lock = record { try_from_slice = λ b. none; serialize = λ s b. some b };
}

abbrev ido_codecs : IdoShared.Codecs
ido_codecs = record {
  market = record { try_from_slice = λ b. none; serialize = λ m b. some b };
  pool = record { try_from_slice = λ b. none; serialize = λ p b. some b };
  market_user_kyc = record { try_from_slice = λ b. none; serialize = λ k b. none };
  stake_pool = record { try_from_slice = λ b. none; serialize = λ s b. some b };
  pool_lock = record { try_from_slice = λ b. none; serialize = λ l b. none };
}

abbrev store : World
store k = record { owner = 5; lamports = 1; bytes = 31 ∷ 25 ∷ [] }

abbrev everyone : Pubkey → Bool
everyone k = true

abbrev replicate {ℓ} : {A : Type ℓ} → ℕ → A → List A
replicate zero x = []
replicate (suc n) x = x ∷ replicate n x

abbrev stage_text : ℕ → String
stage_text n = "stage"

-- A lock of seven tokens.
abbrev lock_request : StakingRequests.Request
lock_request = StakingRequests.lock 10 50 60 51 (record { amount = 7 })

process_instruction-build_example :
    (StakingRequests.build runtime staking_codecs ids staking_codec lock_request >>= λ i.
    StakingDispatch.process_instruction runtime staking_codecs i.program_id staking_codec
      (infos everyone i.accounts)
      i.bytes
      store)
    ≡ StakingRequests.run runtime staking_codecs ids staking_codec everyone lock_request store
process_instruction-build_example =
    process_instruction-build runtime staking_codecs ids staking_codec everyone
      staking_codec-IsInverse lock_request store

-- The nine accounts of `initialize_lock` and one more, and six of the ten of `claim`.
abbrev ten_accounts : List AccountInfo
ten_accounts = infos everyone (replicate 10 (new 10 false))

abbrev six_accounts : List AccountInfo
six_accounts = infos everyone (replicate 6 (new 10 false))

process_instruction_refuses_example :
    StakingDispatch.process_instruction runtime staking_codecs 3 staking_codec ten_accounts
      (5 ∷ [])
      store
    ≡ err not_enough_account_keys
process_instruction_refuses_example =
    process_instruction_refuses runtime staking_codecs 3 staking_codec ten_accounts (5 ∷ []) store
      Staking.Instruction.initialize_lock refl (λ nine. absurd (ground (arith, nine)))

-- A participation with seven tokens in the second stage, with a whitelist and without a KYC record.
abbrev participate_request : IdoRequests.Request
participate_request =
    IdoRequests.participate 10 11 50 51 61 52 62 12 5044 13 none (some 71) (some 72)
      (record { amount = 7 }) 1

built_instruction_runs_example :
    (IdoRequests.build runtime ido_codecs ids ido_codec stage_text 5 participate_request >>= λ i.
    IdoDispatch.process_instruction runtime ido_codecs i.program_id ido_codec
      (infos everyone i.accounts)
      i.bytes
      store)
    ≡ IdoRequests.run runtime ido_codecs ids ido_codec stage_text 5 everyone participate_request
        store
built_instruction_runs_example =
    built_instruction_runs runtime ido_codecs ids ido_codec stage_text 5 everyone
      ido_codec-IsInverse participate_request store refl

few_accounts_refused_example :
    IdoDispatch.process_instruction runtime ido_codecs 5 ido_codec six_accounts (3 ∷ []) store
    ≡ err not_enough_account_keys
few_accounts_refused_example =
    few_accounts_refused runtime ido_codecs 5 ido_codec six_accounts (3 ∷ []) store
      Ido.Instruction.claim refl (omega arith)
