-- ===== src/Device/Renewal.antt =====
-- `addClient` on the server and `ackServer` on the device, run against each other.
use mundosvirtuales_terremot.Base.{
  ℕ, ◌<◌, ◌^◌, ◌≡◌, refl, ap, ◌∙◌, true, false, List, [], Option, none, some, arith, length,
  get_elem?,
}
use mundosvirtuales_terremot.Base.Int.{pos, ltb_ℤ, signed32}
use mundosvirtuales_terremot.Packet.{
  Packet, IsPacket, Command, acknowledge_client, command_code, new_packet, number,
}
use mundosvirtuales_terremot.Client
use mundosvirtuales_terremot.Client.{recv_message}
use mundosvirtuales_terremot.Registry.{PairClientData, get_new_remote_id}
use mundosvirtuales_terremot.Handshake.{
  message, FloatOps, Exchange, Identity, renew_packet, identify,
}
use mundosvirtuales_terremot.Device.{Device, Outcome, out_message, ack_server, receive_message_now}
use mundosvirtuales_terremot.Client.Wire.{send_message-number}
use mundosvirtuales_terremot.Device.Agreement.{received, good_line}

-- The bytes of a message that was sent.
abbrev pub delivered : Option (List ℕ) → List ℕ
delivered none = []
delivered (some bytes) = bytes

-- The conversation: what each end hands to the other is what the other one reads.
module _ (f : FloatOps) (registers : List PairClientData) (d : Device) (array again : List ℕ)
    (junk junk_ack time index : ℕ) where
  abbrev pub acknowledge : Option (List ℕ) × ℕ
  acknowledge = Client.send_message index (new_packet junk_ack acknowledge_client)

  abbrev pub renewal : Option (List ℕ) × ℕ
  renewal = Client.send_message acknowledge.1 (renew_packet f (get_new_remote_id registers))

  abbrev pub outcome : Outcome
  outcome =
      ack_server f d (good_line array again (delivered acknowledge.0) (delivered renewal.0) junk)

  abbrev pub exchange : Exchange
  exchange = record {
    answer = get_elem? outcome.written 0;
    renew_sent = true;
    confirmation = get_elem? outcome.written 1;
    junk_ack = junk_ack;
    time = time;
  }

  abbrev pub identity : Identity
  identity = identify f registers exchange index

not_below : (n : ℕ) → ltb_ℤ (pos n) (pos 0) ≡ false
not_below n = ground arith

-- The server's side for a device with an identification that is not negative: its only message is the first one.
pub identify-known :
    (f : FloatOps) (registers : List PairClientData) (x : Exchange) (index n : ℕ) (p : Packet)
    → recv_message x.answer ≡ some p
    → p.header.command ≡ command_code acknowledge_client
    → signed32 p.header.id_device ≡ pos n
    → let who = identify f registers x index in
      (who.valid ≡ true)
      × (who.is_new ≡ false)
      × (who.remote_id ≡ pos n)
      × (who.sent
          ≡ message (Client.send_message index (new_packet x.junk_ack acknowledge_client)).0)
unfolding identify
identify-known f registers x index n p answer c same =
    rw (answer, c, same, not_below n) (refl, refl, refl, refl)

-- What arrives at the device is the numbered packet.
pub arrives :
    (index junk : ℕ) (c : Command) (array : List ℕ)
    → junk < 2 ^ 32
    → length array ≡ 16
    → receive_message_now array (delivered (Client.send_message index (new_packet junk c)).0)
      ≡ some (number index (new_packet junk c)).0
arrives index junk c array h size =
    ap (λ o. receive_message_now array (delivered o.0))
      (send_message-number index (new_packet junk c) refl)
    ∙ received index junk c array h size

pub out_message-IsPacket :
    (id message_id junk : ℕ)
    → id < 2 ^ 32
    → message_id < 2 ^ 32
    → junk < 2 ^ 32
    → IsPacket
        (out_message (record { id = id; message_id = message_id }) acknowledge_client none junk)
out_message-IsPacket id message_id junk i m j = omega arith
