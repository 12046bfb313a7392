-- ===== src/Handshake.antt =====
-- The part of `addClient` that ServerSensors.cpp and ServerAlarm.cpp have in common word for word:
-- the acknowledge message, the answer, and the renewal of the device's identification.
-- The conversions between `int` and `float` are the machine's, and a parameter.
pub mod Laws
pub mod Floats
mod Tests
use mundosvirtuales_terremot.Base.{
  ℕ, Bool, true, false, ◌&&◌, List, [], ◌∷◌, ◌++◌, Option, none, some, if◌then◌else◌, ◌==◌, ◌≤◌,
  ◌<◌, ◌^◌, ◌≡◌,
}
use mundosvirtuales_terremot.Base.Int.{ℤ, pos, negsuc, ltb_ℤ, signed32, word32}
use mundosvirtuales_terremot.Packet.{
  Packet, acknowledge_client, renew_device_id, command_code, new_packet,
}
use mundosvirtuales_terremot.Client.{send_message, recv_message}
use mundosvirtuales_terremot.Registry.{PairClientData, get_new_remote_id}

-- IEEE 754 single precision, as far as the program relies on it: a conversion gives 32 bits, and
-- every integer up to 2 ^ 24 survives the way there and back.
pub record FloatOps : Type 0 where
  pub of_int : ℤ → ℕ
  pub to_int : ℕ → ℤ
  pub of_int-lt : (a : ℤ) → of_int a < 2 ^ 32
  pub exact : (n : ℕ) → n ≤ 2 ^ 24 → to_int (of_int (pos n)) ≡ pos n

-- What the client's socket does during one `addClient`: the two messages that `recvMessage` may
-- read, whether sending the renewal succeeds, the payloads left without a value, and the time.
pub record Exchange : Type 0 where
  pub answer : Option (List ℕ)
  pub renew_sent : Bool
  pub confirmation : Option (List ℕ)
  pub junk_ack : ℕ
  pub time : ℕ

-- The locals of `addClient` after the exchange: remoteID, validRemoteID, isNewRemoteClient and
-- packetRecv.m_header.m_idDevice; with the messages handed to the socket and the request index.
pub record Identity : Type 0 where
  pub remote_id : ℤ
  pub valid : Bool
  pub is_new : Bool
  pub id_device : ℕ
  pub sent : List (List ℕ)
  pub index : ℕ

abbrev pub message : Option (List ℕ) → List (List ℕ)
message none = []
message (some bytes) = bytes ∷ []

abbrev pub unidentified : ℤ → List (List ℕ) → ℕ → Identity
unidentified remote sent index = record {
  remote_id = remote;
  valid = false;
  is_new = false;
  id_device = 0;
  sent = sent;
  index = index;
}

module _ (f : FloatOps) where
  -- packetRenew with the new identification in its payload.
  abbrev pub renew_packet : ℕ → Packet
  renew_packet id = new_packet (f.of_int (pos id)) renew_device_id

  -- The device's confirmation of `id`: `recvMessage` succeeded, with an acknowledge command, and the
  -- unsigned device field equals the identification.
  abbrev pub confirm : ℕ → Option Packet → List (List ℕ) → ℕ → Identity
  confirm id none sent index = unidentified (pos id) sent index
  confirm id (some p) sent index =
      if p.header.command == command_code acknowledge_client
        && p.header.id_device == word32 (pos id)
      then record {
        remote_id = pos id;
        valid = true;
        is_new = true;
        id_device = p.header.id_device;
        sent = sent;
        index = index;
      }
      else unidentified (pos id) sent index

  -- The branch for a negative identification.
  unfoldable pub renew : List PairClientData → Exchange → List (List ℕ) → ℕ → Identity
  renew registers x sent index =
      let id = get_new_remote_id registers in
      let (bytes, index') = send_message index (renew_packet id) in
      if x.renew_sent
      then confirm id (recv_message x.confirmation) (sent ++ message bytes) index'
      else unidentified (pos id) (sent ++ message bytes) index'

  abbrev pub judge : List PairClientData → Exchange → Option Packet → List (List ℕ) → ℕ → Identity
  judge registers x none sent index = unidentified (negsuc 0) sent index
  judge registers x (some p) sent index =
      if p.header.command == command_code acknowledge_client
      then (if ltb_ℤ (signed32 p.header.id_device) (pos 0)
          then renew registers x sent index
          else record {
            remote_id = signed32 p.header.id_device;
            valid = true;
            is_new = false;
            id_device = p.header.id_device;
            sent = sent;
            index = index;
          })
      else unidentified (negsuc 0) sent index

  unfoldable pub identify : List PairClientData → Exchange → ℕ → Identity
  unfolding renew
  identify registers x index =
      let (bytes, index') = send_message index (new_packet x.junk_ack acknowledge_client) in
      judge registers x (recv_message x.answer) (message bytes) index'
