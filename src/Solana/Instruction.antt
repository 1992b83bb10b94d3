-- ===== src/Solana/Instruction.antt =====
-- Instructions as clients build them, and as the runtime hands them to a program.
use solstarter.Common.{◌≡◌, Bool, true, false, Option, some, List, [], ◌∷◌}
use solstarter.Solana.Outcome.{Result, ok, unwrap, ◌>>=◌}
use solstarter.Solana.Store.{Pubkey, Bytes, AccountInfo}

-- `solana_program::instruction::AccountMeta`, and its two constructors.
pub record AccountMeta : Type 0 where
  pub pubkey : Pubkey
  pub is_signer : Bool
  pub is_writable : Bool

abbrev pub new : Pubkey → Bool → AccountMeta
new key signer = record { pubkey = key; is_signer = signer; is_writable = true }

abbrev pub new_readonly : Pubkey → Bool → AccountMeta
new_readonly key signer = record { pubkey = key; is_signer = signer; is_writable = false }

-- `solana_program::instruction::Instruction`.
pub record SolanaInstruction : Type 0 where
  pub program_id : Pubkey
  pub accounts : List AccountMeta
  pub bytes : Bytes

-- The keys of the sysvars and of the programs that the builders name.
pub record ProgramIds : Type 0 where
  pub rent : Pubkey
  pub clock : Pubkey
  pub spl_token : Pubkey
  pub system_program : Pubkey

-- An instruction's borsh encoding, and what the program decodes its data with.
pub record InstructionCodec (I : Type 0) : Type 0 where
  pub decode : Bytes → Option I
  pub try_to_vec : I → Option Bytes

-- Every instruction is encoded, and decoded from its encoding.
pub record IsInverse {I : Type 0} (codec : InstructionCodec I) : Type 0 where
  pub inverts : (i : I) → (b : Bytes) × (codec.try_to_vec i ≡ some b) × (codec.decode b ≡ some i)

-- `Instruction::new_with_borsh`, which unwraps the encoding.
abbrev pub new_with_borsh :
    {I : Type 0} → InstructionCodec I → Pubkey → I → List AccountMeta → Result SolanaInstruction
new_with_borsh codec program_id i accounts = do
  bytes ← unwrap (codec.try_to_vec i)
  ok (record { program_id = program_id; accounts = accounts; bytes = bytes })

-- The account that the runtime hands over for a key: it is a signer if the transaction has its
-- signature.
abbrev pub info : (Pubkey → Bool) → Pubkey → AccountInfo
info signed key = record { key = key; is_signer = signed key }

abbrev pub infos : (Pubkey → Bool) → List AccountMeta → List AccountInfo
infos signed [] = []
infos signed (m ∷ metas) = info signed m.pubkey ∷ infos signed metas
