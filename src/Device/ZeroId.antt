-- ===== src/Device/ZeroId.antt =====
-- The identification 0, which the server accepts and the device does not.
use mundosvirtuales_terremot.Base.{
  ℕ, ◌<◌, ◌^◌, ◌≡◌, refl, ap, ◌∙◌, true, false, List, [], ◌∷◌, none, some, length, get_elem?,
}
use mundosvirtuales_terremot.Base.Int.{pos, signed32, word32, word32-lt}
use mundosvirtuales_terremot.Packet.{Packet, acknowledge_client, command_code, new_packet, number}
use mundosvirtuales_terremot.Packet.Laws.{wire}
use mundosvirtuales_terremot.Client
use mundosvirtuales_terremot.Client.{recv_message}
use mundosvirtuales_terremot.Registry.{PairClientData}
use mundosvirtuales_terremot.Handshake.{message, FloatOps, identify}
use mundosvirtuales_terremot.Device.{
  Device, is_valid_id, decode, fill, send_message, receive_message_now, take_identity,
  answer_server, ack_server,
}
use mundosvirtuales_terremot.Client.Wire.{send_message-number, number-keeps, recv_message-wire}
use mundosvirtuales_terremot.Device.Agreement.{good_line, first_answer}
use mundosvirtuales_terremot.Device.Renewal.{
  delivered, arrives, identify-known, out_message-IsPacket,
}

fill_empty : (array : List ℕ) → fill array [] ≡ array
unfolding fill
fill_empty [] = refl
fill_empty (b ∷ array) = ap (◌∷◌ b) (fill_empty array)

silence : (array : List ℕ) → decode array ≡ none → receive_message_now array [] ≡ none
unfolding receive_message_now
silence array h = ap decode (fill_empty array) ∙ h

-- A device without a valid identification that is sent no renewal.
ack_server_waits :
    (f : FloatOps) (d : Device) (array again first : List ℕ) (junk : ℕ) (p : Packet)
    → is_valid_id d.id_device ≡ false
    → receive_message_now array first ≡ some p
    → p.header.command ≡ command_code acknowledge_client
    → receive_message_now again [] ≡ none
    → let out = ack_server f d (good_line array again first [] junk) in
      (out.acknowledged ≡ false) × (out.written ≡ wire (first_answer d junk) ∷ [])
unfolding ack_server answer_server take_identity send_message
ack_server_waits f d array again first junk p unknown pc c quiet =
    rw (pc, c, unknown, quiet) (refl, refl)

-- The server's first message is one message.
one_message :
    (index junk : ℕ)
    → let (bytes, _) = Client.send_message index (new_packet junk acknowledge_client) in
      message bytes ≡ delivered bytes ∷ []
one_message index junk =
    rw (send_message-number index (new_packet junk acknowledge_client) refl) refl

-- The server and a device with the identification 0 disagree, over a connection that loses nothing:
-- the server identifies the device as a known one and sends it nothing but the first message, while `ackServer`, which
-- reads no message from the bytes that its array held before, ends without success. The first array
-- has sixteen bytes, the message counter and every undefined value 32 bits.
pub zero_id_disagreement :
    (f : FloatOps) (registers : List PairClientData) (d : Device) (array again : List ℕ)
    → (junk junk_ack time index : ℕ) → d.id_device ≡ pos 0
    → d.comm.message_id < 2 ^ 32
    → junk < 2 ^ 32
    → junk_ack < 2 ^ 32
    → length array ≡ 16
    → decode again ≡ none
    → let first =
        delivered (Client.send_message index (new_packet junk_ack acknowledge_client)).0 in
      let out = ack_server f d (good_line array again first [] junk) in
      let who =
        identify f registers
          (record {
            answer = get_elem? out.written 0;
            renew_sent = false;
            confirmation = none;
            junk_ack = junk_ack;
            time = time;
          })
          index in
      (who.valid ≡ true)
      × (who.is_new ≡ false)
      × (who.remote_id ≡ pos 0)
      × (who.sent ≡ first ∷ [])
      × (out.acknowledged ≡ false)
zero_id_disagreement f registers d array again junk junk_ack time index zero_id m j j' size quiet =
    let out =
      ack_server_waits f d array again _ junk
        (number index (new_packet junk_ack acknowledge_client)).0 (ap is_valid_id zero_id)
        (arrives index junk_ack acknowledge_client array j' size)
        (number-keeps index (new_packet junk_ack acknowledge_client)).1 (silence again quiet) in
    let (valid, known, same, sent) =
      identify-known f registers _ index 0 (first_answer d junk)
        (ap (λ w. recv_message (get_elem? w 0)) out.1
          ∙ recv_message-wire (first_answer d junk)
              (out_message-IsPacket _ _ junk (word32-lt d.id_device) m j) refl)
        refl (ap (λ a. signed32 (word32 a)) zero_id) in
    (valid, known, same, sent ∙ one_message index junk_ack, out.0)
