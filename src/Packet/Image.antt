-- ===== src/Packet/Image.antt =====
-- src/utils/communication/PacketComm.h: the sixteen bytes that packets travel as, and the packets.
use mathlib.Core.Equiv.{IsEquiv, iso_to_equiv}
use mathlib.Core.HLevel.{Σ_prop_path}
use native.Mathlib.Bridge.{le_prop}
use native.Mathlib.Nat.{ℕ_set}
use mundosvirtuales_terremot.Base.{
  ℕ, ◌+◌, ◌^◌, ◌<◌, ◌≡◌, refl, sym, ap, ◌∙◌, List, [], ◌∷◌, arith, length, get_or, All-get_or,
}
use mundosvirtuales_terremot.Security.{encrypt}
use mundosvirtuales_terremot.Security.Step.{IsBlock}
use mundosvirtuales_terremot.Security.Inverse.{encrypt-IsBlock, decrypt-IsBlock, encrypt-decrypt}
use mundosvirtuales_terremot.Packet.Defs.{
  Packet, IsPacket, of_words, to_bytes, of_bytes, word_bytes, word_at,
}
use mundosvirtuales_terremot.Packet.Coding.{key_crypt, unpacking}
use mundosvirtuales_terremot.Packet.Laws.{
  wire, to_words-IsBlock, of_words-IsPacket, to_words-of_words, of_words-to_words, unpacking-wire,
}

-- Sixteen bytes.
pub record IsFrame (b : List ℕ) : Type 0 where
  pub size : length b ≡ 16
  pub byte : (i : ℕ) → get_or b i 0 < 2 ^ 8

pub IsPacket-prop : (p : Packet) → IsProp (IsPacket p)
IsPacket-prop p = hlevel le_prop

IsFrame-prop : (b : List ℕ) → IsProp (IsFrame b)
IsFrame-prop b = hlevel (le_prop, ℕ_set)

sixteen :
    (b : List ℕ)
    → length b ≡ 16
    → b
      ≡ get_or b 0 0
        ∷ get_or b 1 0
        ∷ get_or b 2 0
        ∷ get_or b 3 0
        ∷ get_or b 4 0
        ∷ get_or b 5 0
        ∷ get_or b 6 0
        ∷ get_or b 7 0
        ∷ get_or b 8 0
        ∷ get_or b 9 0
        ∷ get_or b 10 0
        ∷ get_or b 11 0
        ∷ get_or b 12 0
        ∷ get_or b 13 0
        ∷ get_or b 14 0
        ∷ get_or b 15 0
        ∷ []
sixteen (a ∷ b ∷ c ∷ d ∷ e ∷ f ∷ g ∷ h ∷ i ∷ j ∷ k ∷ l ∷ m ∷ n ∷ o ∷ p ∷ []) e1 = refl
sixteen _ e1 = absurd (omega arith)

of_bytes-IsPacket : (b : List ℕ) → IsFrame b → IsPacket (of_bytes b)
unfolding of_bytes of_words
of_bytes-IsPacket b f = omega (
  arith,
  f.byte 0,
  f.byte 1,
  f.byte 2,
  f.byte 3,
  f.byte 4,
  f.byte 5,
  f.byte 6,
  f.byte 7,
  f.byte 8,
  f.byte 9,
  f.byte 10,
  f.byte 11,
  f.byte 12,
  f.byte 13,
  f.byte 14,
  f.byte 15,
)

word_at-lt : (b : List ℕ) → IsFrame b → (i : ℕ) → word_at b i < 2 ^ 32
word_at-lt b f i = omega (arith, f.byte i, f.byte (i + 1), f.byte (i + 2), f.byte (i + 3))

word_bytes-word_at :
    (b : List ℕ) (i : ℕ) (rest : List ℕ)
    → IsFrame b
    → word_bytes (word_at b i) rest
      ≡ get_or b i 0 ∷ get_or b (i + 1) 0 ∷ get_or b (i + 2) 0 ∷ get_or b (i + 3) 0 ∷ rest
word_bytes-word_at b i rest f =
    ground (arith, f.byte i, f.byte (i + 1), f.byte (i + 2), f.byte (i + 3))

words : List ℕ → List ℕ
words b = word_at b 0 ∷ word_at b 4 ∷ word_at b 8 ∷ word_at b 12 ∷ []

words-IsBlock : (b : List ℕ) → IsFrame b → IsBlock 4 (words b)
unfolding words
words-IsBlock b f = record {
  size = refl;
  word = λ i.
      All-get_or (words b) i (omega arith)
        (word_at-lt b f 0, (word_at-lt b f 4, (word_at-lt b f 8, (word_at-lt b f 12, tt))));
}

to_bytes-of_bytes : (b : List ℕ) → IsFrame b → to_bytes (of_bytes b) ≡ b
unfolding of_bytes to_bytes words
to_bytes-of_bytes b f =
    ap
      (λ v.
        word_bytes (get_or v 0 0)
          (word_bytes (get_or v 1 0) (word_bytes (get_or v 2 0) (word_bytes (get_or v 3 0) []))))
      (to_words-of_words (words b) (words-IsBlock b f))
    ∙ rw
        (
          word_bytes-word_at b 12 [] f,
          word_bytes-word_at b 8 _ f,
          word_bytes-word_at b 4 _ f,
          word_bytes-word_at b 0 _ f,
        )
        (sym (sixteen b f.size))

pub to_bytes-IsFrame : (p : Packet) → IsPacket p → IsFrame (to_bytes p)
unfolding to_bytes
to_bytes-IsFrame p w = record {
  size = refl;
  byte = λ i. All-get_or (to_bytes p) i (omega arith) (omega arith);
}

-- A packet whose fields are within their widths, and sixteen bytes.
abbrev pub FitPacket : Type 0
FitPacket = (p : Packet) × IsPacket p

abbrev pub Frame : Type 0
Frame = (b : List ℕ) × IsFrame b

-- The frame that a packet travels as.
unfoldable pub seal : FitPacket → Frame
seal (p, w) = (
  wire p,
  to_bytes-IsFrame _
      (of_words-IsPacket _ (encrypt-IsBlock key_crypt (omega arith) _ (to_words-IsBlock p w))),
)

-- The packet that is read of a frame.
open_frame : Frame → FitPacket
unfolding unpacking
open_frame (b, f) = (
  unpacking (of_bytes b),
  of_words-IsPacket _
      (decrypt-IsBlock key_crypt (omega arith) _ (to_words-IsBlock _ (of_bytes-IsPacket b f))),
)

wire-unpacking : (b : List ℕ) → IsFrame b → wire (unpacking (of_bytes b)) ≡ b
unfolding unpacking
wire-unpacking b f =
    let w = of_bytes-IsPacket b f in
    let k = to_words-IsBlock (of_bytes b) w in
    ap (λ v. to_bytes (of_words (encrypt v 4 key_crypt)))
      (to_words-of_words _ (decrypt-IsBlock key_crypt (omega arith) _ k))
    ∙ ap (λ v. to_bytes (of_words v)) (encrypt-decrypt key_crypt (omega arith) _ k)
    ∙ ap to_bytes (of_words-to_words (of_bytes b) w)
    ∙ to_bytes-of_bytes b f

-- The encryption of packets into the sixteen bytes that they travel as is an equivalence: any sixteen
-- bytes, whoever sent them, are the image of exactly one packet whose fields are within their
-- widths.
pub seal-IsEquiv : IsEquiv seal
unfolding seal open_frame
seal-IsEquiv =
    (iso_to_equiv (record {
      fun = seal;
      inv = open_frame;
      rinv = λ b. Σ_prop_path IsFrame-prop (wire-unpacking b.0 b.1);
      linv = λ p. Σ_prop_path IsPacket-prop (unpacking-wire p.0 p.1);
    })).1
