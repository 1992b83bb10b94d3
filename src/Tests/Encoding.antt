-- ===== src/Tests/Encoding.antt =====
-- Encodings of the instructions of both programs as lists of numbers, and their inverses.
use solstarter.Common.{ℕ, zero, suc, ℤ, pos, negsuc, ◌≡◌, refl, Option, none, some, [], ◌∷◌}
use solstarter.Solana.{Bytes, InstructionCodec, IsInverse}
use solstarter.Staking.Instruction as Staking
use solstarter.Ido.State.{KycRequirement, not_required, any_required}
use solstarter.Ido.Instruction as Ido

abbrev pub sign : ℤ → ℕ
sign (pos n) = 0
sign (negsuc n) = 1

abbrev pub size : ℤ → ℕ
size (pos n) = n
size (negsuc n) = n

abbrev pub signed_of : ℕ → ℕ → ℤ
signed_of zero n = pos n
signed_of (suc k) n = negsuc n

pub signed_of-sign : (z : ℤ) → signed_of (sign z) (size z) ≡ z
signed_of-sign (pos n) = refl
signed_of-sign (negsuc n) = refl

abbrev encode_staking : Staking.Instruction → Bytes
encode_staking (Staking.Instruction.initialize_pool i) =
    0
    ∷ i.ido_authority
    ∷ sign i.transit_incoming
    ∷ size i.transit_incoming
    ∷ sign i.transit_outgoing
    ∷ size i.transit_outgoing
    ∷ i.tier_balance
encode_staking (Staking.Instruction.stake_start i) = 1 ∷ i.amount ∷ []
encode_staking Staking.Instruction.stake_finish = 2 ∷ []
encode_staking (Staking.Instruction.unstake_start i) = 3 ∷ i.amount ∷ []
encode_staking Staking.Instruction.unstake_finish = 4 ∷ []
encode_staking Staking.Instruction.initialize_lock = 5 ∷ []
encode_staking (Staking.Instruction.lock i) = 6 ∷ i.amount ∷ []
encode_staking (Staking.Instruction.unlock i) = 7 ∷ i.amount ∷ []
encode_staking (Staking.Instruction.start_pool i) =
    8 ∷ sign i.pool_active_until ∷ size i.pool_active_until ∷ []

abbrev decode_staking : ℕ → Bytes → Option Staking.Instruction
decode_staking zero (authority ∷ si ∷ ni ∷ so ∷ no' ∷ balance) = some (
    Staking.Instruction.initialize_pool (record {
      tier_balance = balance;
      ido_authority = authority;
      transit_incoming = signed_of si ni;
      transit_outgoing = signed_of so no';
    }))
decode_staking (suc zero) (n ∷ []) = some (Staking.Instruction.stake_start (record { amount = n }))
decode_staking (suc (suc zero)) [] = some Staking.Instruction.stake_finish
decode_staking (suc (suc (suc zero))) (n ∷ []) =
    some (Staking.Instruction.unstake_start (record { amount = n }))
decode_staking (suc (suc (suc (suc zero)))) [] = some Staking.Instruction.unstake_finish
decode_staking (suc (suc (suc (suc (suc zero))))) [] = some Staking.Instruction.initialize_lock
decode_staking (suc (suc (suc (suc (suc (suc zero)))))) (n ∷ []) =
    some (Staking.Instruction.lock (record { amount = n }))
decode_staking (suc (suc (suc (suc (suc (suc (suc zero))))))) (n ∷ []) =
    some (Staking.Instruction.unlock (record { amount = n }))
decode_staking (suc (suc (suc (suc (suc (suc (suc (suc zero)))))))) (s ∷ n ∷ []) =
    some (Staking.Instruction.start_pool (record { pool_active_until = signed_of s n }))
decode_staking _ _ = none

abbrev tagged : {I : Type 0} → (ℕ → Bytes → Option I) → Bytes → Option I
tagged decode [] = none
tagged decode (tag ∷ rest) = decode tag rest

abbrev pub staking_codec : InstructionCodec Staking.Instruction
staking_codec = record { decode = tagged decode_staking; try_to_vec = λ i. some (encode_staking i) }

decode-encode_staking :
    (i : Staking.Instruction) → tagged decode_staking (encode_staking i) ≡ some i
decode-encode_staking (Staking.Instruction.initialize_pool i) =
    rw (signed_of-sign i.transit_incoming, signed_of-sign i.transit_outgoing) refl
decode-encode_staking (Staking.Instruction.stake_start i) = refl
decode-encode_staking Staking.Instruction.stake_finish = refl
decode-encode_staking (Staking.Instruction.unstake_start i) = refl
decode-encode_staking Staking.Instruction.unstake_finish = refl
decode-encode_staking Staking.Instruction.initialize_lock = refl
decode-encode_staking (Staking.Instruction.lock i) = refl
decode-encode_staking (Staking.Instruction.unlock i) = refl
decode-encode_staking (Staking.Instruction.start_pool i) =
    rw (signed_of-sign i.pool_active_until) refl

pub staking_codec-IsInverse : IsInverse staking_codec
staking_codec-IsInverse = record {
  inverts = λ i. (encode_staking i, refl, decode-encode_staking i);
}

abbrev kyc_number : KycRequirement → ℕ
kyc_number not_required = 0
kyc_number any_required = 1

abbrev kyc_of : ℕ → KycRequirement
kyc_of zero = not_required
kyc_of (suc n) = any_required

kyc_of-kyc_number : (k : KycRequirement) → kyc_of (kyc_number k) ≡ k
kyc_of-kyc_number not_required = refl
kyc_of-kyc_number any_required = refl

abbrev encode_ido : Ido.Instruction → Bytes
encode_ido (Ido.Instruction.initialize_market i) = 0 ∷ i.stake_pool ∷ []
encode_ido (Ido.Instruction.initialize_pool i) =
    1
    ∷ i.pool_owner
    ∷ i.price
    ∷ i.goal_max
    ∷ i.goal_min
    ∷ i.amount_min
    ∷ i.amount_max
    ∷ sign i.time_start
    ∷ size i.time_start
    ∷ sign i.time_finish
    ∷ size i.time_finish
    ∷ kyc_number i.kyc_requirement
    ∷ i.time_table
encode_ido (Ido.Instruction.participate i) = 2 ∷ i.amount ∷ []
encode_ido Ido.Instruction.claim = 3 ∷ []
encode_ido Ido.Instruction.add_to_whitelist = 4 ∷ []
encode_ido Ido.Instruction.withdraw = 5 ∷ []
encode_ido (Ido.Instruction.create_market_user_kyc i) =
    6 ∷ sign i.expiration ∷ size i.expiration ∷ []
encode_ido Ido.Instruction.delete_market_user_kyc = 7 ∷ []
encode_ido Ido.Instruction.start_pool = 8 ∷ []

abbrev decode_ido : ℕ → Bytes → Option Ido.Instruction
decode_ido zero (k ∷ []) = some (Ido.Instruction.initialize_market (record { stake_pool = k }))
decode_ido (suc zero)
      (owner ∷ price ∷ gmax ∷ gmin ∷ amin ∷ amax ∷ ss ∷ ns ∷ sf ∷ nf ∷ kyc ∷ table) =
    some (
      Ido.Instruction.initialize_pool (record {
        pool_owner = owner;
        price = price;
        goal_max = gmax;
        goal_min = gmin;
        amount_min = amin;
        amount_max = amax;
        time_start = signed_of ss ns;
        time_finish = signed_of sf nf;
        kyc_requirement = kyc_of kyc;
        time_table = table;
      }))
decode_ido (suc (suc zero)) (n ∷ []) = some (Ido.Instruction.participate (record { amount = n }))
decode_ido (suc (suc (suc zero))) [] = some Ido.Instruction.claim
decode_ido (suc (suc (suc (suc zero)))) [] = some Ido.Instruction.add_to_whitelist
decode_ido (suc (suc (suc (suc (suc zero))))) [] = some Ido.Instruction.withdraw
decode_ido (suc (suc (suc (suc (suc (suc zero)))))) (s ∷ n ∷ []) =
    some (Ido.Instruction.create_market_user_kyc (record { expiration = signed_of s n }))
decode_ido (suc (suc (suc (suc (suc (suc (suc zero))))))) [] =
    some Ido.Instruction.delete_market_user_kyc
decode_ido (suc (suc (suc (suc (suc (suc (suc (suc zero)))))))) [] = some Ido.Instruction.start_pool
decode_ido _ _ = none

abbrev pub ido_codec : InstructionCodec Ido.Instruction
ido_codec = record { decode = tagged decode_ido; try_to_vec = λ i. some (encode_ido i) }

decode-encode_ido : (i : Ido.Instruction) → tagged decode_ido (encode_ido i) ≡ some i
decode-encode_ido (Ido.Instruction.initialize_market i) = refl
decode-encode_ido (Ido.Instruction.initialize_pool i) =
    rw
      (
        signed_of-sign i.time_start,
        signed_of-sign i.time_finish,
        kyc_of-kyc_number i.kyc_requirement,
      )
      refl
decode-encode_ido (Ido.Instruction.participate i) = refl
decode-encode_ido Ido.Instruction.claim = refl
decode-encode_ido Ido.Instruction.add_to_whitelist = refl
decode-encode_ido Ido.Instruction.withdraw = refl
decode-encode_ido (Ido.Instruction.create_market_user_kyc i) = rw (signed_of-sign i.expiration) refl
decode-encode_ido Ido.Instruction.delete_market_user_kyc = refl
decode-encode_ido Ido.Instruction.start_pool = refl

pub ido_codec-IsInverse : IsInverse ido_codec
ido_codec-IsInverse = record { inverts = λ i. (encode_ido i, refl, decode-encode_ido i) }
