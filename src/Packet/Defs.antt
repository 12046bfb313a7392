-- ===== src/Packet/Defs.antt =====
-- The packet types and the packed structs as words and bytes.
use mundosvirtuales_terremot.Base.{
  ℕ, ◌+◌, ◌*◌, ◌/◌, ◌%◌, ◌^◌, ◌<◌, Bool, ◌&&◌, List, [], ◌∷◌, get_or, ◌==◌,
}

pub data Command : Type 0 where
  alive earthquake wrong_packet close_connection acknowledge_client renew_device_id : Command

-- The byte of a command.
abbrev pub command_code : Command → ℕ
command_code alive = 0
command_code earthquake = 1
command_code wrong_packet = 2
command_code close_connection = 3
command_code acknowledge_client = 4
command_code renew_device_id = 5

pub record Header : Type 0 where
  pub version : ℕ
  pub command : ℕ
  pub flags : ℕ
  pub id_device : ℕ
  pub id_response : ℕ

pub record Packet : Type 0 where
  pub header : Header
  pub payload : ℕ

-- VERSION_PACKET is (1 << 8) | 0.
abbrev pub version_packet : ℕ
version_packet = 0x100

abbrev pub new_header : Command → Header
new_header c = record {
  version = version_packet;
  command = command_code c;
  flags = 0;
  id_device = 0;
  id_response = 0;
}

abbrev pub new_packet : ℕ → Command → Packet
new_packet junk c = record { header = new_header c; payload = junk }

abbrev pub header_is_valid : Header → Bool
header_is_valid h = h.version == version_packet

abbrev pub is_valid : Packet → Bool
is_valid p = header_is_valid p.header

abbrev pub header_equals : Header → Header → Bool
header_equals a b =
    a.version == b.version && a.command == b.command && a.id_response == b.id_response

abbrev pub packet_equals : Packet → Packet → Bool
packet_equals a b = header_equals a.header b.header

-- sizeof(HeaderPacketComm) and sizeof(PAYLOAD), packed.
abbrev pub size_header : ℕ
size_header = 12

abbrev pub size_content : ℕ
size_content = 4

abbrev pub size : ℕ
size = size_header + size_content

-- The fields within their widths.
pub record IsPacket (p : Packet) : Type 0 where
  pub version : p.header.version < 2 ^ 16
  pub command : p.header.command < 2 ^ 8
  pub flags : p.header.flags < 2 ^ 8
  pub id_device : p.header.id_device < 2 ^ 32
  pub id_response : p.header.id_response < 2 ^ 32
  pub payload : p.payload < 2 ^ 32

-- The struct read as an array of uint32_t, and back.
unfoldable pub to_words : Packet → List ℕ
to_words p =
    (p.header.version + p.header.command * 2 ^ 16 + p.header.flags * 2 ^ 24)
    ∷ p.header.id_device
    ∷ p.header.id_response
    ∷ p.payload
    ∷ []

unfoldable pub of_words : List ℕ → Packet
of_words v = record {
  header = record {
    version = get_or v 0 0 % 2 ^ 16;
    command = get_or v 0 0 / 2 ^ 16 % 2 ^ 8;
    flags = get_or v 0 0 / 2 ^ 24;
    id_device = get_or v 1 0;
    id_response = get_or v 2 0;
  };
  payload = get_or v 3 0;
}

abbrev pub word_bytes : ℕ → List ℕ → List ℕ
word_bytes w rest =
    (w % 2 ^ 8) ∷ (w / 2 ^ 8 % 2 ^ 8) ∷ (w / 2 ^ 16 % 2 ^ 8) ∷ (w / 2 ^ 24 % 2 ^ 8) ∷ rest

-- The struct as the char buffer that the sockets read and write.
unfoldable pub to_bytes : Packet → List ℕ
unfolding to_words
to_bytes p =
    let v = to_words p in
    word_bytes (get_or v 0 0)
      (word_bytes (get_or v 1 0) (word_bytes (get_or v 2 0) (word_bytes (get_or v 3 0) [])))

abbrev pub word_at : List ℕ → ℕ → ℕ
word_at b i =
    get_or b i 0
    + get_or b (i + 1) 0 * 2 ^ 8
    + get_or b (i + 2) 0 * 2 ^ 16
    + get_or b (i + 3) 0 * 2 ^ 24

unfoldable pub of_bytes : List ℕ → Packet
unfolding of_words
of_bytes b = of_words (word_at b 0 ∷ word_at b 4 ∷ word_at b 8 ∷ word_at b 12 ∷ [])
