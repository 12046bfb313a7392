-- ===== src/Device/Connecting.antt =====
-- arduino/AlarmDevice/AlarmDevice.ino and arduino/libraries/ServerComm: the start of a sketch and the
-- connection to the server. The three sketches have the same `connectToServer` and `ackServer`. A round is a call of `StartComm` with
-- the `ackServer` that follows when it succeeds; a list of rounds that ends while the loop runs is a call that has
-- not returned. The result of `Begin`, the DHCP, is only printed.
use mundosvirtuales_terremot.Base.{ℕ, Bool, List, [], ◌∷◌, ◌++◌, Option, none, some, if◌then◌else◌}
use mundosvirtuales_terremot.Base.Int.{ℤ, word32}
use mundosvirtuales_terremot.Packet.{alive}
use mundosvirtuales_terremot.Handshake.{FloatOps}
use mundosvirtuales_terremot.Device.{
  ServerComm, Device, Line, send_message, ack_server, mac_address,
}

-- `StartComm` fails, or succeeds and `ackServer` runs over the line.
pub data Round : Type 0 where
  unreachable : Round
  reachable : Line → Round

-- The globals idDevice, comm and mac, and the EEPROM cell.
pub record Sketch : Type 0 where
  pub device : Device
  pub mac : List ℕ

-- The end of `connectToServer`, or a wait for more rounds; with the messages written in each round.
pub data Dialling : Type 0 where
  linked : Device → List (List ℕ) → Dialling
  dialling : Device → List (List ℕ) → Dialling

-- The two loops of `connectToServer`.
unfoldable pub dial_rounds : FloatOps → Device → List (List ℕ) → List Round → Dialling
dial_rounds f d written [] = dialling d written
dial_rounds f d written (unreachable ∷ rounds) = dial_rounds f d written rounds
dial_rounds f d written (reachable line ∷ rounds) =
    let out = ack_server f d line in
    let more = dial_rounds f out.device (written ++ out.written) rounds in
    if out.acknowledged then linked out.device (written ++ out.written) else more

-- The bytes 0 and 1 of `mac` stay; `idDevice` gives the others.
unfoldable pub connect_to_server : FloatOps → List ℕ → Sketch → List Round → List ℕ × Dialling
unfolding dial_rounds
connect_to_server f prefix s rounds =
    (mac_address (word32 s.device.id_device) prefix, dial_rounds f s.device [] rounds)

-- `EEPROM.get` at the start of `setup`, and the connection. `comm` is as its constructor left it.
unfoldable pub setup_connection :
    FloatOps → List ℕ → ℤ → ServerComm → List Round → List ℕ × Dialling
unfolding connect_to_server
setup_connection f prefix eeprom comm rounds =
    connect_to_server f prefix
      (record { device = record { id_device = eeprom; eeprom = eeprom; comm = comm }; mac = [] })
      rounds

-- `alive`, which the timer calls: the message that is written, if the client is connected.
unfoldable pub alive_message : Device → ℕ → Bool → Device × Option (List ℕ)
alive_message d junk is_connected =
    let (comm, bytes) = send_message d.comm alive none junk is_connected in
    (record d { comm = comm }, bytes)

-- What a pass of `loop` meets at its end: a connection, or rounds of `connectToServer`.
pub data Upkeep : Type 0 where
  up : Upkeep
  down : List Round → Upkeep

-- The test of `Connected` and what follows it; `none` is a call of `connectToServer` that has not returned.
unfoldable pub reconnect : FloatOps → Device → Upkeep → Option Device
unfolding dial_rounds
reconnect f d up = some d
reconnect f d (down rounds) = elim (dial_rounds f d [] rounds) [
  | linked e written ↦ some e
  | dialling e written ↦ none
]

-- What is unread when `StopClient` ends a connection is lost.
abbrev pub unread : Upkeep → List ℕ → List ℕ
unread up rest = rest
unread (down rounds) rest = []
