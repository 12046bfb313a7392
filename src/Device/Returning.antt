-- ===== src/Device/Returning.antt =====
-- A device that was given an identification and that connects again, after it was switched off and on.

use mundosvirtuales_terremot.Base.{
  ℕ, ◌<◌, ◌^◌, ◌≡◌, refl, ap, ◌∙◌, true, false, List, [], ◌∷◌, none, some, arith, length, get_elem?,
}
use mundosvirtuales_terremot.Base.Int.{pos, signed32, word32, word32-lt}
use mundosvirtuales_terremot.Packet.{Packet, acknowledge_client, command_code, new_packet, number}
use mundosvirtuales_terremot.Packet.Laws.{wire}
use mundosvirtuales_terremot.Client
use mundosvirtuales_terremot.Client.{recv_message}
use mundosvirtuales_terremot.Client.Wire.{number-keeps, recv_message-wire}
use mundosvirtuales_terremot.Registry.{PairClientData}
use mundosvirtuales_terremot.Handshake.{FloatOps, Exchange, identify}
use mundosvirtuales_terremot.Device.{
  Device, Outcome, is_valid_id, send_message, answer_server, ack_server, receive_message_now,
}
use mundosvirtuales_terremot.Device.Agreement.{good_line, first_answer}
use mundosvirtuales_terremot.Device.Renewal.{
  delivered, arrives, identify-known, out_message-IsPacket,
}

-- On a line that loses nothing, a device with a valid identification answers with one message and keeps it.
ack_server-known :
    (f : FloatOps) (d : Device) (array again first second : List ℕ) (junk : ℕ) (p : Packet)
    → is_valid_id d.id_device ≡ true
    → receive_message_now array first ≡ some p
    → p.header.command ≡ command_code acknowledge_client
    → let out = ack_server f d (good_line array again first second junk) in
      (out.acknowledged ≡ true)
      × (out.device.id_device ≡ d.id_device)
      × (out.device.eeprom ≡ d.eeprom)
      × (out.written ≡ wire (first_answer d junk) ∷ [])
unfolding ack_server answer_server send_message
ack_server-known f d array again first second junk p own pc c =
    rw (pc, c, own) (refl, refl, refl, refl)

signed32-word32_pos : (n : ℕ) → n < 2 ^ 31 → signed32 (word32 (pos n)) ≡ pos n
signed32-word32_pos n h = ground arith

-- The conversation of a device that the server sends no renewal.
module _ (f : FloatOps) (registers : List PairClientData) (d : Device) (array again : List ℕ)
    (junk junk_ack time index : ℕ) where
  abbrev pub answered : Outcome
  answered = ack_server f d (
      good_line array again
        (delivered (Client.send_message index (new_packet junk_ack acknowledge_client)).0) [] junk)

  abbrev pub visit : Exchange
  visit = record {
    answer = get_elem? answered.written 0;
    renew_sent = false;
    confirmation = none;
    junk_ack = junk_ack;
    time = time;
  }

  -- Both ends agree on an identification that the device brings.
  pub visit_agreement :
      (n : ℕ)
      → d.id_device ≡ pos n
      → 0 < n
      → n < 2 ^ 31
      → d.comm.message_id < 2 ^ 32
      → junk < 2 ^ 32
      → junk_ack < 2 ^ 32
      → length array ≡ 16
      → let who = identify f registers visit index in
        ((who.valid ≡ true) × (who.is_new ≡ false) × (who.remote_id ≡ pos n))
        × (answered.acknowledged ≡ true)
        × (answered.device.id_device ≡ d.id_device)
        × (answered.device.eeprom ≡ d.eeprom)
  visit_agreement n id positive small m j j' size =
      let out =
        ack_server-known f d array again _ [] junk
          (number index (new_packet junk_ack acknowledge_client)).0
          (ap is_valid_id id ∙ ground arith)
          (arrives index junk_ack acknowledge_client array j' size)
          (number-keeps index (new_packet junk_ack acknowledge_client)).1 in
      let (valid, known, same, _) =
        identify-known f registers visit index n (first_answer d junk)
          (ap (λ w. recv_message (get_elem? w 0)) out.3
            ∙ recv_message-wire (first_answer d junk)
                (out_message-IsPacket _ _ junk (word32-lt d.id_device) m j) refl)
          refl (ap (λ a. signed32 (word32 a)) id ∙ signed32-word32_pos n small) in
      ((valid, known, same), out.0, out.1, out.2)
