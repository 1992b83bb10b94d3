-- ===== src/Solana/Kept.antt =====
-- What calls of other programs and writes keep of the accounts of a program.
use solstarter.Common.{◌≡◌, ◌≢◌, sym, ◌∙◌, some, List, arith}
use solstarter.Solana.Outcome.{ok}
use solstarter.Solana.Store.{Pubkey, Bytes, World, AccountInfo}
use solstarter.Solana.Outside.{Call, Runtime, Seed, Codec}
use solstarter.Solana.Patterns.{write, write_unwrap}
use solstarter.Solana.Laws.{callee, IsIsolated}

-- An account has its owner and data in both stores.
pub record IsKept (w w' : World) (k : Pubkey) : Type 0 where
  pub same_owner : (w' k).owner ≡ (w k).owner
  pub same_bytes : (w' k).bytes ≡ (w k).bytes

pub IsKept-trans : (u v w : World) (k : Pubkey) → IsKept u v k → IsKept v w k → IsKept u w k
IsKept-trans u v w k p q = record { same_owner = cc; same_bytes = cc }

-- What a write leaves in its account, and of the others.
pub write-ok :
    {A : Type 0} (codec : Codec A) (v : A) (a : AccountInfo) (w : World) {w' : World}
    → write codec v a w ≡ ok w'
    → (b : Bytes) × (codec.serialize v (w a.key).bytes ≡ some b)
      × ((w' a.key).bytes ≡ b)
      × ((w' a.key).owner ≡ (w a.key).owner)
write-ok codec v a w h = ground arith

pub write_unwrap-ok :
    {A : Type 0} (codec : Codec A) (v : A) (a : AccountInfo) (w : World) {w' : World}
    → write_unwrap codec v a w ≡ ok w'
    → (b : Bytes) × (codec.serialize v (w a.key).bytes ≡ some b)
      × ((w' a.key).bytes ≡ b)
      × ((w' a.key).owner ≡ (w a.key).owner)
write_unwrap-ok codec v a w h = ground arith

pub write_keeps :
    {A : Type 0} (codec : Codec A) (v : A) (a : AccountInfo) (w : World) {w' : World} (k : Pubkey)
    → write codec v a w ≡ ok w'
    → a.key ≢ k
    → w' k ≡ w k
write_keeps codec v a w k h apart = ground arith

pub write_unwrap_keeps :
    {A : Type 0} (codec : Codec A) (v : A) (a : AccountInfo) (w : World) {w' : World} (k : Pubkey)
    → write_unwrap codec v a w ≡ ok w'
    → a.key ≢ k
    → w' k ≡ w k
write_unwrap_keeps codec v a w k h apart = ground arith

-- A call of another program keeps the accounts that a program owns.
module _ (system_program token_program staking_program : Pubkey) (rt : Runtime)
    (isolated : IsIsolated system_program token_program staking_program rt)
    (program_id : Pubkey) where
  pub call_keeps :
      (c : Call) (accounts : List AccountInfo) (seeds : List Seed) (w w' : World) (k : Pubkey)
      → callee system_program token_program staking_program c ≢ program_id
      → (w k).owner ≡ program_id
      → rt.invoke_signed c accounts seeds w ≡ ok w'
      → IsKept w w' k
  call_keeps c accounts seeds w w' k other owned h =
      let (o, b) = isolated.keeps_foreign c accounts seeds w w' k h (λ e. other (sym e ∙ owned)) in
      record { same_owner = o; same_bytes = b }
