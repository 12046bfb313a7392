-- ===== src/Response/Tests.antt =====
-- Runs of the responses.
use mundosvirtuales_terremot.Base.{
  ℕ, ◌≡◌, refl, false, [], ◌∷◌, some, replicate, arith, length-replicate,
}
use mundosvirtuales_terremot.Base.Int.{pos}
use mundosvirtuales_terremot.Packet.{
  Packet, IsPacket, earthquake, command_code, version_packet, unpacking, of_bytes,
}
use mundosvirtuales_terremot.Queue.{add}
use mundosvirtuales_terremot.Tcp.{Socket}
use mundosvirtuales_terremot.Sensors.{ListSensors, new_measurement, max_size_sensors}
use mundosvirtuales_terremot.Sensors.Laws.{IsValid}
use mundosvirtuales_terremot.SensorServer.{SensorServer}
use mundosvirtuales_terremot.Response.{get_response, response_to, send_response}
use mundosvirtuales_terremot.Response.Laws.{get_response-send_response}

abbrev quake : ℕ → Packet
quake id = record {
  header = record {
    version = version_packet;
    command = command_code earthquake;
    flags = 0;
    id_device = 5;
    id_response = id;
  };
  payload = 77;
}

quake-IsPacket : IsPacket (quake 9)
quake-IsPacket = omega arith

get_response-send_response_example :
    get_response 0
      (add (quake 8 ∷ []) (unpacking (of_bytes (send_response 3 (quake 9) 55).0)))
      (quake 9)
    ≡ some (response_to (quake 9) 55, quake 8 ∷ [])
get_response-send_response_example =
    get_response-send_response 3 55 0 (quake 9) (quake 8 ∷ []) quake-IsPacket refl (omega arith)
      (omega arith) (refl, tt)

abbrev sensors : ListSensors
sensors = record {
  queue = replicate max_size_sensors new_measurement;
  next_pos = pos 2;
  active_sensors = pos 2;
  max_size = 2;
}

sensors-IsValid : IsValid sensors
sensors-IsValid = record {
  slots = length-replicate max_size_sensors new_measurement;
  total = omega arith;
  next = omega arith;
}

abbrev server : SensorServer
server = record {
  sensors = sensors;
  registers = [];
  pool = record {
    clients =
        record { local_id = pos 1; remote_id = pos 5; was_replaced = false; stopped = false } ∷ [];
    queue = 0 ∷ [];
  };
  file = [];
  index = 0;
}

abbrev socket : Socket
socket = record { handle = pos 5; was_connected = false; is_non_block = false }
