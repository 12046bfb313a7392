-- ===== src/Response.antt =====
-- src/server/ResponseSensors.cpp, src/server/ResponseAlarm.cpp and src/utils/communication/ResponsePacket.cpp: what
-- the program answers to a packet. `getClientID()` is read when the packet arrives. The payload
-- that a constructor leaves without a value is `junk`, the time of the system an argument.
pub mod Laws
mod Tests
use mundosvirtuales_terremot.Base.{
  ℕ, ◌/◌, Bool, true, false, List, Option, none, some, if◌then◌else◌, ◌==◌,
}
use mundosvirtuales_terremot.Base.Int.{ℤ, pos, leb_ℤ}
use mundosvirtuales_terremot.Packet.{
  Packet, Command, alive, earthquake, close_connection, acknowledge_client, command_code,
  new_packet, packet_equals, packing, to_bytes,
}
use mundosvirtuales_terremot.Queue.{remove_item}
use mundosvirtuales_terremot.Tcp.{Socket, close_socket}
use mundosvirtuales_terremot.Server.{client_at, get_local_id_from_remote_id}
use mundosvirtuales_terremot.SensorServer.{SensorServer, update_list_sensor}

-- The answer `PacketComm responsePacket;`.
abbrev pub plain_answer : ℕ → Packet
plain_answer junk = new_packet junk alive

-- `ResponseSensors::process_packet` for the client at `ref`: the server, the client's socket and the
-- answer; `none` is a write outside of the array of measurements.
unfoldable pub process_sensor :
    ℕ → ℤ → ℕ → SensorServer → Socket → Packet → Option (SensorServer × Socket × Packet)
process_sensor ref time junk s t p =
    if p.header.command == command_code close_connection
    then some (s, close_socket t, plain_answer junk)
    else if p.header.command == command_code earthquake
    then elim (update_list_sensor s ref p.payload time) [
      | none ↦ none
      | some s' ↦ some (s', t, plain_answer junk)
    ]
    else if p.header.command == command_code alive
    then some (s, t, plain_answer junk)
    else if p.header.command == command_code acknowledge_client
    then (if leb_ℤ (pos 0) (get_local_id_from_remote_id s.pool (client_at s.pool ref).remote_id)
        then some (s, close_socket t, plain_answer junk)
        else some (s, t, plain_answer junk))
    else some (s, t, plain_answer junk)

-- `ResponseAlarm::process_packet`: the client's socket and the answer.
unfoldable pub process_alarm : ℕ → Socket → Packet → Socket × Packet
process_alarm junk t p =
    if p.header.command == command_code close_connection
    then (close_socket t, plain_answer junk)
    else if p.header.command == command_code alive
    then (t, plain_answer junk)
    else (t, plain_answer junk)

-- The packet of `get_response`, or a new one if none was found.
abbrev pub found_or_new : ℕ → Option Packet → Packet
found_or_new junk none = plain_answer junk
found_or_new junk (some p) = p

-- `ResponsePacket::get_response`: the packet and the queue after it; `none` waits for a packet.
unfoldable pub get_response : ℕ → List Packet → Packet → Option (Packet × List Packet)
get_response junk queue request = elim (remove_item (λ p. packet_equals p request) queue) [
  | none ↦ none
  | some (found, rest) ↦ some (found_or_new junk found, rest)
]

-- The packet that `sendResponse` makes for a request.
abbrev pub response_to : Packet → ℕ → Packet
response_to request payload = record {
  header = record ((new_packet payload alive).header) {
    command = request.header.command;
    id_response = request.header.id_response;
  };
  payload = payload;
}

-- `ResponsePacket::sendResponse`: the bytes handed to the socket, and the request index.
unfoldable pub send_response : ℕ → Packet → ℕ → List ℕ × ℕ
send_response index request payload =
    let (packet, index') = packing index (response_to request payload) in (to_bytes packet, index')
