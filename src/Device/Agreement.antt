-- ===== src/Device/Agreement.antt =====
-- The device's `ackServer` against the server's `addClient`: both ends agree on the identification.
use mundosvirtuales_terremot.Base.{
  ℕ, ◌+◌, ◌<◌, ◌^◌, ◌%◌, ◌≡◌, refl, sym, ap, ◌∙◌, true, false, List, [], ◌∷◌, none, some, arith,
  length, if◌then◌else◌,
}
use mundosvirtuales_terremot.Base.Int.{ℤ, word32}
use mundosvirtuales_terremot.Packet.{
  Packet, IsPacket, Command, acknowledge_client, renew_device_id, command_code, new_packet,
  is_valid, number, unpacking,
}
use mundosvirtuales_terremot.Packet.Laws.{wire, unpacking-wire, length-to_bytes, number-IsPacket}
use mundosvirtuales_terremot.Client.Wire.{kept, number-keeps, new_packet-IsPacket}
use mundosvirtuales_terremot.Handshake.{FloatOps}
use mundosvirtuales_terremot.Device.{
  ServerComm, Device, Line, out_message, send_message, decode, fill, receive_message_now, set_id,
  is_valid_id, take_identity, answer_server, ack_server,
}

fill_full : (array bytes : List ℕ) → length array ≡ length bytes → fill array bytes ≡ bytes
unfolding fill
fill_full [] [] h = refl
fill_full [] (s ∷ bytes) h = absurd (omega arith)
fill_full (b ∷ array) [] h = absurd (omega arith)
fill_full (b ∷ array) (s ∷ bytes) h = ap (◌∷◌ s) (fill_full array bytes (omega arith))

-- A whole packet of the current version is received as it was sent, by the device and by the server.
pub receive_message_now-wire :
    (array : List ℕ) (p : Packet)
    → length array ≡ 16
    → IsPacket p
    → is_valid p ≡ true
    → receive_message_now array (wire p) ≡ some p
unfolding receive_message_now decode unpacking
receive_message_now-wire array p h w v =
    ap decode (fill_full array (wire p) (h ∙ sym (length-to_bytes _)))
    ∙ ap (λ q. if is_valid q then some q else none) (unpacking-wire p w)
    ∙ kept p v

-- The device's message as a packet.
send_message-out :
    (c : ServerComm) (command : Command) (junk : ℕ)
    → send_message c command none junk true ≡ (
      record c { message_id = (c.message_id + 1) % 2 ^ 32 },
      some (wire (out_message c command none junk)),
    )
unfolding send_message
send_message-out c command junk = refl

-- A packet as it arrives at the other end after `Client.send_message`.
pub received :
    (index : ℕ) (junk : ℕ) (c : Command) (array : List ℕ)
    → junk < 2 ^ 32
    → length array ≡ 16
    → let q = (number index (new_packet junk c)).0 in receive_message_now array (wire q) ≡ some q
received index junk c array h size =
    let (v, _, _, _) = number-keeps index (new_packet junk c) in
    receive_message_now-wire array (number index (new_packet junk c)).0 size
      (number-IsPacket index (new_packet junk c) (new_packet-IsPacket junk c h)) (ground arith)

-- A line that loses nothing.
abbrev pub good_line : List ℕ → List ℕ → List ℕ → List ℕ → ℕ → Line
good_line array again first second junk = record {
  array = array;
  array_again = again;
  first = first;
  second = second;
  connected = true;
  connected_again = true;
  junk = junk;
}

-- The device's answers to the two messages of the server.
abbrev pub first_answer : Device → ℕ → Packet
first_answer d junk = out_message (set_id d).comm acknowledge_client none junk

abbrev pub renamed : Device → ℤ → Device
renamed d id = record {
  id_device = id;
  eeprom = id;
  comm = record { id = word32 id; message_id = (d.comm.message_id + 1) % 2 ^ 32 };
}

abbrev pub second_answer : Device → ℕ → ℤ → Packet
second_answer d junk id = out_message (renamed d id).comm acknowledge_client none junk

-- On a line that loses nothing, a device without a valid identification answers a server that renews
-- it with two messages, and keeps the identification in the EEPROM.
pub ack_server-renewed :
    (f : FloatOps) (d : Device) (array again first second : List ℕ) (junk : ℕ) (p q : Packet)
    → is_valid_id d.id_device ≡ false
    → receive_message_now array first ≡ some p
    → p.header.command ≡ command_code acknowledge_client
    → receive_message_now again second ≡ some q
    → q.header.command ≡ command_code renew_device_id
    → is_valid_id (f.to_int q.payload) ≡ true
    → let out = ack_server f d (good_line array again first second junk) in
      let id = f.to_int q.payload in
      (out.acknowledged ≡ true)
      × (out.device.id_device ≡ id)
      × (out.device.eeprom ≡ id)
      × (out.written ≡ wire (first_answer d junk) ∷ wire (second_answer d junk id) ∷ [])
unfolding ack_server answer_server take_identity send_message
ack_server-renewed f d array again first second junk p q unknown pc c qc c' valid =
    rw (pc, c, unknown, qc, c', valid) (refl, refl, refl, refl)
