-- ===== src/Security/Tests.antt =====
-- Runs of the cipher on a packet-sized block, and its theorems there.
use mundosvirtuales_terremot.Base.{ℕ, ◌≡◌, ◌≢◌, refl, ap, get_or, List, [], ◌∷◌, arith, All-get_or}
use mundosvirtuales_terremot.Security.{encrypt, decrypt}
use mundosvirtuales_terremot.Security.Step.{IsBlock}
use mundosvirtuales_terremot.Security.Inverse.{decrypt-encrypt}
use mundosvirtuales_terremot.Security.Device.{encrypt_long, decrypt_long, device_reads_server}

abbrev key : List ℕ
key = 56394 ∷ 12134315 ∷ 74 ∷ 156 ∷ []

abbrev block : List ℕ
block = 0x40100 ∷ 0xffff_ffff ∷ 1 ∷ 0 ∷ []

block-IsBlock : IsBlock 4 block
block-IsBlock = record { size = refl; word = λ i. All-get_or block i (omega arith) (omega arith) }

encrypt-block : decrypt (encrypt block 4 key) 4 key ≡ block
unfolding encrypt decrypt
encrypt-block = refl

decrypt-encrypt_example : decrypt (encrypt block 4 key) 4 key ≡ block
decrypt-encrypt_example = decrypt-encrypt key (omega arith) block block-IsBlock

-- A word of 64 bits gives another image.
wide-block : decrypt (encrypt_long 64 block 4 key) 4 key ≢ block
unfolding encrypt_long decrypt
wide-block e = absurd (omega (arith, ap (λ v. get_or v 0 0) e))

device_reads_server_example :
    (decrypt_long 32 (encrypt block 4 key) 4 key ≡ block)
    × (decrypt (encrypt_long 32 block 4 key) 4 key ≡ block)
device_reads_server_example = device_reads_server key (omega arith) block block-IsBlock
