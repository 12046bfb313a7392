-- ===== src/Client/Wire.antt =====
-- src/utils/network/ClientTCP.cpp: what `sendMessage` hands to the socket and `recvMessage` makes of it.
use mundosvirtuales_terremot.Base.{
  ℕ, ◌<◌, ◌^◌, ◌≡◌, refl, ap, ◌∙◌, true, none, some, arith, Bool-cases, inl, inr, if◌then◌else◌,
  ◌==◌,
}
use mundosvirtuales_terremot.Packet.{
  Packet, IsPacket, Command, alive, earthquake, wrong_packet, close_connection, acknowledge_client,
  renew_device_id, new_packet, is_valid, number, packing,
}
use mundosvirtuales_terremot.Packet.Laws.{wire, unpacking-wire}
use mundosvirtuales_terremot.Client.{send_message, recv_message}

pub kept : (p : Packet) → is_valid p ≡ true → (if is_valid p then some p else none) ≡ some p
kept p v = rw v refl

pub recv_message-wire :
    (p : Packet) → IsPacket p → is_valid p ≡ true → recv_message (some (wire p)) ≡ some p
unfolding recv_message
recv_message-wire p w v =
    ap (λ q. if is_valid q then some q else none) (unpacking-wire p w) ∙ kept p v

pub send_message-number :
    (index : ℕ) (p : Packet)
    → is_valid p ≡ true
    → send_message index p ≡ (some (wire (number index p).0), (number index p).1)
unfolding send_message packing
send_message-number index p v = rw v refl

-- `number` keeps everything but the response identifier.
pub number-keeps :
    (index : ℕ) (p : Packet)
    → let q = (number index p).0 in
      (q.header.version ≡ p.header.version)
      × (q.header.command ≡ p.header.command)
      × (q.header.id_device ≡ p.header.id_device)
      × (q.payload ≡ p.payload)
unfolding number
number-keeps index p = elim (Bool-cases (p.header.id_response == 0)) [
  | inl e ↦ rw e (refl, refl, refl, refl)
  | inr e ↦ rw e (refl, refl, refl, refl)
]

pub new_packet-IsPacket : (junk : ℕ) (c : Command) → junk < 2 ^ 32 → IsPacket (new_packet junk c)
new_packet-IsPacket junk alive h = omega arith
new_packet-IsPacket junk earthquake h = omega arith
new_packet-IsPacket junk wrong_packet h = omega arith
new_packet-IsPacket junk close_connection h = omega arith
new_packet-IsPacket junk acknowledge_client h = omega arith
new_packet-IsPacket junk renew_device_id h = omega arith
