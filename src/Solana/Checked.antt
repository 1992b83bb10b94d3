-- ===== src/Solana/Checked.antt =====
-- What reading an account and the checks of Solana/Patterns have shown where they succeed.
use solstarter.Common.{◌≡◌, ◌==◌, true, some, List, [], ◌∷◌, arith}
use solstarter.Solana.Outcome.{ok}
use solstarter.Solana.Store.{Pubkey, World, AccountInfo}
use solstarter.Solana.Outside.{Codec}
use solstarter.Solana.Patterns.{is_owner, is_signer, read, read_unwrap}

pub read-ok :
    {A : Type 0} (codec : Codec A) (a : AccountInfo) (w : World) {v : A}
    → read codec a w ≡ ok v
    → codec.try_from_slice (w a.key).bytes ≡ some v
read-ok codec a w h = ground arith

pub read_unwrap-ok :
    {A : Type 0} (codec : Codec A) (a : AccountInfo) (w : World) {v : A}
    → read_unwrap codec a w ≡ ok v
    → codec.try_from_slice (w a.key).bytes ≡ some v
read_unwrap-ok codec a w h = ground arith

pub is_signer-ok : (a : AccountInfo) → is_signer a ≡ ok tt → a.is_signer ≡ true
is_signer-ok a h = ground arith

pub same-eq : (j k : Pubkey) → (j == k) ≡ true → j ≡ k
same-eq j k h = ground arith

pub first_owner :
    (program_id : Pubkey) (a : AccountInfo) (rest : List AccountInfo) (w : World)
    → is_owner program_id (a ∷ rest) w ≡ ok tt
    → (w a.key).owner ≡ program_id
first_owner program_id a rest w h = ground arith

pub second_owner :
    (program_id : Pubkey) (a b : AccountInfo) (w : World)
    → is_owner program_id (a ∷ b ∷ []) w ≡ ok tt
    → (w b.key).owner ≡ program_id
second_owner program_id a b w h = ground arith
