-- ===== src/Packet/Laws.antt =====
-- The image of a packet and its encryption lose nothing.
use mundosvirtuales_terremot.Base.{
  ℕ, ◌≡◌, refl, ap, ◌∙◌, List, [], ◌∷◌, arith, length, get_or, All-get_or,
}
use mundosvirtuales_terremot.Security.{encrypt, decrypt}
use mundosvirtuales_terremot.Security.Step.{IsBlock}
use mundosvirtuales_terremot.Security.Inverse.{encrypt-IsBlock, decrypt-encrypt}
use mundosvirtuales_terremot.Packet.Defs.{Packet, IsPacket, to_words, of_words, to_bytes, of_bytes}
use mundosvirtuales_terremot.Packet.Coding.{key_crypt, number, packing, unpacking}

pub to_words-IsBlock : (p : Packet) → IsPacket p → IsBlock 4 (to_words p)
unfolding to_words
to_words-IsBlock p w = record {
  size = refl;
  word = λ i. All-get_or (to_words p) i (omega arith) (omega arith);
}

pub of_words-to_words : (p : Packet) → IsPacket p → of_words (to_words p) ≡ p
unfolding of_words to_words
of_words-to_words p w = ground arith

four_words :
    (v : List ℕ) → length v ≡ 4 → v ≡ get_or v 0 0 ∷ get_or v 1 0 ∷ get_or v 2 0 ∷ get_or v 3 0 ∷ []
four_words (a ∷ b ∷ c ∷ d ∷ []) h = refl
four_words _ h = absurd (omega arith)

pub of_words-IsPacket : (v : List ℕ) → IsBlock 4 v → IsPacket (of_words v)
unfolding of_words
of_words-IsPacket v b = omega (arith, b.word 0, b.word 1, b.word 2, b.word 3)

pub to_words-of_words : (v : List ℕ) → IsBlock 4 v → to_words (of_words v) ≡ v
unfolding of_words to_words
to_words-of_words v b = ground (arith, four_words v b.size, b.word 0)

-- The bytes of a packet with its fields in range are read back as the packet.
pub of_bytes-to_bytes : (p : Packet) → IsPacket p → of_bytes (to_bytes p) ≡ p
unfolding of_bytes to_bytes
of_bytes-to_bytes p w = ground arith

pub number-IsPacket : (index : ℕ) (p : Packet) → IsPacket p → IsPacket (number index p).0
unfolding number
number-IsPacket index p w = ground arith

-- Unpacking a packed packet gives the packet back, field for field, with its response identifier
-- as `packing` filled it in, if its fields are within their widths.
pub unpacking-packing :
    (index : ℕ) (p : Packet) → IsPacket p → unpacking (packing index p).0 ≡ (number index p).0
unfolding unpacking packing
unpacking-packing index p w =
    ap (λ v. of_words (decrypt v 4 key_crypt))
      (to_words-of_words (encrypt v 4 key_crypt) (encrypt-IsBlock key_crypt (omega arith) v b))
    ∙ ap of_words (decrypt-encrypt key_crypt (omega arith) v b)
    ∙ of_words-to_words q qw
  where
    q : Packet
    q = (number index p).0

    qw : IsPacket q
    qw = number-IsPacket index p w

    v : List ℕ
    v = to_words q

    b : IsBlock 4 v
    b = to_words-IsBlock q qw

-- The bytes that a packet travels as.
abbrev pub wire : Packet → List ℕ
wire p = to_bytes (of_words (encrypt (to_words p) 4 key_crypt))

pub length-to_bytes : (p : Packet) → length (to_bytes p) ≡ 16
unfolding to_bytes
length-to_bytes p = refl

-- The receiver of the bytes of an encrypted packet decrypts the packet, if its fields are within
-- their widths.
pub unpacking-wire : (p : Packet) → IsPacket p → unpacking (of_bytes (wire p)) ≡ p
unfolding unpacking
unpacking-wire p w =
    let b = encrypt-IsBlock key_crypt (omega arith) (to_words p) (to_words-IsBlock p w) in
    ap (λ q. of_words (decrypt (to_words q) 4 key_crypt))
      (of_bytes-to_bytes _ (of_words-IsPacket _ b))
    ∙ ap (λ v. of_words (decrypt v 4 key_crypt)) (to_words-of_words _ b)
    ∙ ap of_words (decrypt-encrypt key_crypt (omega arith) (to_words p) (to_words-IsBlock p w))
    ∙ of_words-to_words p w

-- `packing` encrypts the numbered packet.
pub to_bytes-packing :
    (index : ℕ) (p : Packet) → to_bytes (packing index p).0 ≡ wire (number index p).0
unfolding packing
to_bytes-packing index p = refl
