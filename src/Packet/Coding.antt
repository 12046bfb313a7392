-- ===== src/Packet/Coding.antt =====
-- `packing` and `unpacking`: the request index and the cipher.
use mundosvirtuales_terremot.Base.{ℕ, ◌+◌, ◌/◌, ◌%◌, ◌^◌, List, [], ◌∷◌, ◌==◌, if◌then◌else◌}
use mundosvirtuales_terremot.Security.{encrypt, decrypt}
use mundosvirtuales_terremot.Packet.Defs.{Header, Packet, size, to_words, of_words}

-- KEY_CRYPT
abbrev pub key_crypt : List ℕ
key_crypt = 56394 ∷ 12134315 ∷ 74 ∷ 156 ∷ []

-- ++index, a uint32_t.
abbrev pub next_index : ℕ → ℕ
next_index index = (index + 1) % 2 ^ 32

-- The packet with its response identifier filled in, and the static counter after the call.
unfoldable pub number : ℕ → Packet → Packet × ℕ
number index p =
    if p.header.id_response == 0
    then (
      record p { header = record (p.header) { id_response = next_index index } },
      next_index index,
    )
    else (p, index)

unfoldable pub packing : ℕ → Packet → Packet × ℕ
unfolding number to_words of_words encrypt
packing index p =
    let (q, index') = number index p in
    (of_words (encrypt (to_words q) (size / 4) key_crypt), index')

unfoldable pub unpacking : Packet → Packet
unfolding to_words of_words decrypt
unpacking p = of_words (decrypt (to_words p) (size / 4) key_crypt)

-- The overload on a header and a payload.
unfoldable pub unpacking_parts : Header → ℕ → Packet
unfolding unpacking
unpacking_parts header payload = unpacking (record { header = header; payload = payload })
