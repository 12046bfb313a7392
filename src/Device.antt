-- ===== src/Device.antt =====
-- The devices: arduino/libraries/ServerComm/ServerComm.h and ServerComm.cpp, and the parts of
-- arduino/AlarmDevice/AlarmDevice.ino and arduino/TerremotoDevice/TerremotoDeviceUpdated.ino that speak with the server. `long` has 32 bits and
-- `int` 16; MessageHeader is laid out as the server's packet, so the type of packets is shared.
-- Of the Ethernet library only what it answers is used.
mod Tests
pub mod Accelerometer
pub mod Detection
pub mod Agreement
pub mod Renewal
pub mod ZeroId
pub mod Connecting
pub mod Ready
pub mod Alarming
pub mod Sensing
pub mod Bus
pub mod Legacy
pub mod Tremor
pub mod Init
pub mod Life
pub mod Speaking
pub mod Utterance
pub mod Booted
pub mod Returning
use mundosvirtuales_terremot.Base.{
  ℕ, zero, suc, ◌+◌, ◌/◌, ◌%◌, ◌^◌, Bool, true, false, ◌&&◌, List, [], ◌∷◌, ◌++◌, Option, none,
  some, if◌then◌else◌, ◌==◌, ltb, length, take, drop,
}
use mundosvirtuales_terremot.Base.Int.{ℤ, pos, ltb_ℤ, word32}
use mundosvirtuales_terremot.Security.{encrypt, decrypt}
use mundosvirtuales_terremot.Packet.{
  Command, acknowledge_client, renew_device_id, command_code, Packet, version_packet, to_words,
  of_words, to_bytes, of_bytes,
}
use mundosvirtuales_terremot.Handshake.{FloatOps}

-- ServerComm::key
abbrev pub key : List ℕ
key = 56394 ∷ 12134315 ∷ 74 ∷ 156 ∷ []

-- The fields `id` and `messageId`, as 32-bit words.
pub record ServerComm : Type 0 where
  pub id : ℕ
  pub message_id : ℕ

-- The message of `SendMessage`. Without a ratio the source reads the payload through a null pointer:
-- whatever is found there is `junk`.
abbrev pub out_message : ServerComm → Command → Option ℕ → ℕ → Packet
out_message c command ratio junk = record {
  header = record {
    version = version_packet;
    command = command_code command;
    flags = elim ratio [ none ↦ 0 | some r ↦ 1 ];
    id_device = c.id;
    id_response = c.message_id;
  };
  payload = elim ratio [ none ↦ junk | some r ↦ r ];
}

-- `SendMessage`: the sixteen bytes that are written, if the client is connected.
unfoldable pub send_message :
    ServerComm → Command → Option ℕ → ℕ → Bool → ServerComm × Option (List ℕ)
send_message c command ratio junk is_connected =
    let m = of_words (encrypt (to_words (out_message c command ratio junk)) 4 key) in
    let c' = record c { message_id = (c.message_id + 1) % 2 ^ 32 } in
    if is_connected then (c', some (to_bytes m)) else (c', none)

-- The end of `ReceiveMessage`: memcpy, decryption and the test of the version.
unfoldable pub decode : List ℕ → Option Packet
decode bytes =
    let m = of_words (decrypt (to_words (of_bytes bytes)) 4 key) in
    if m.header.version == version_packet then some m else none

-- `ReceiveMessage(m, true)`: nothing happens before sixteen bytes are there.
unfoldable pub receive_message : List ℕ → Option Packet × List ℕ
receive_message stream =
    if ltb (length stream) 16 then (none, stream) else (decode (take 16 stream), drop 16 stream)

-- The loop of `ReceiveMessage(m, false)` over `inBytes`: it does not wait for what is missing, which
-- keeps the bytes that the array held before.
unfoldable pub fill : List ℕ → List ℕ → List ℕ
fill [] stream = []
fill (b ∷ array) [] = b ∷ fill array []
fill (b ∷ array) (s ∷ stream) = s ∷ fill array stream

unfoldable pub receive_message_now : List ℕ → List ℕ → Option Packet
receive_message_now array stream = decode (fill array stream)

-- The sketch's globals idDevice and comm, and the EEPROM cell.
pub record Device : Type 0 where
  pub id_device : ℤ
  pub eeprom : ℤ
  pub comm : ServerComm

abbrev pub is_valid_id : ℤ → Bool
is_valid_id id = ltb_ℤ (pos 0) id

abbrev pub set_id : Device → Device
set_id d = record d { comm = record (d.comm) { id = word32 d.id_device } }

-- What the network does during `ackServer`: the arrays and the bytes of the two receives, whether
-- the client is connected for the two sends, and what a null pointer reads.
pub record Line : Type 0 where
  pub array : List ℕ
  pub array_again : List ℕ
  pub first : List ℕ
  pub second : List ℕ
  pub connected : Bool
  pub connected_again : Bool
  pub junk : ℕ

-- The device after `ackServer`, its result, and the messages written.
pub record Outcome : Type 0 where
  pub device : Device
  pub acknowledged : Bool
  pub written : List (List ℕ)

abbrev pub refused : Device → List (List ℕ) → Outcome
refused d written = record { device = d; acknowledged = false; written = written }

module _ (f : FloatOps) where
  -- The reaction to the renewal packet.
  unfoldable pub take_identity : Device → Line → List (List ℕ) → Option Packet → Outcome
  take_identity d line written none = refused d written
  take_identity d line written (some m) =
      let renewed = record d { id_device = f.to_int m.payload } in
      let stored = record (set_id renewed) { eeprom = renewed.id_device } in
      let (comm, bytes) =
        send_message stored.comm acknowledge_client none line.junk line.connected_again in
      if m.header.command == command_code renew_device_id
      then (if is_valid_id renewed.id_device
          then elim bytes [
            | none ↦ refused (record stored { comm = comm }) written
            | some b ↦ record {
              device = record stored { comm = comm };
              acknowledged = true;
              written = written ++ b ∷ [];
            }
          ]
          else refused renewed written)
      else refused d written

  -- The reaction to the acknowledge packet.
  unfoldable pub answer_server : Device → Line → Option Packet → Outcome
  unfolding take_identity
  answer_server d line none = refused d []
  answer_server d line (some m) =
      let (comm, bytes) =
        send_message (set_id d).comm acknowledge_client none line.junk line.connected in
      let answered = record (set_id d) { comm = comm } in
      if m.header.command == command_code acknowledge_client
      then elim bytes [
        | none ↦ refused answered []
        | some b ↦
            if is_valid_id d.id_device
            then record { device = answered; acknowledged = true; written = b ∷ [] }
            else take_identity answered line (b ∷ [])
                (receive_message_now line.array_again line.second)
      ]
      else refused d []

  unfoldable pub ack_server : Device → Line → Outcome
  unfolding answer_server
  ack_server d line = answer_server d line (receive_message_now line.array line.first)

-- The bytes of the MAC address that `connectToServer` sets.
unfoldable pub mac_address : ℕ → List ℕ → List ℕ
mac_address id prefix =
    prefix
    ++ (id / 2 ^ 24 % 2 ^ 8) ∷ (id / 2 ^ 16 % 2 ^ 8) ∷ (id / 2 ^ 8 % 2 ^ 8) ∷ (id % 2 ^ 8) ∷ []
