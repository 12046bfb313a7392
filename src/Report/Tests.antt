-- ===== src/Report/Tests.antt =====
-- A measurement and an alert that go their whole way.
use mundosvirtuales_terremot.Base.{
  map, none, ◌≤◌, ◌+◌, ◌/◌, ◌%◌, ℕ, ◌<◌, ◌^◌, ◌≡◌, refl, leb, ltb, ◌&&◌, true, false, List, [], ◌∷◌,
  some, replicate, arith, length-replicate, All,
}
use mundosvirtuales_terremot.Base.Int.{ℤ, pos, abs, ◌-ℤ◌}
use mundosvirtuales_terremot.Packet.{
  to_bytes, of_bytes, to_words, of_words, unpacking, Packet, number, new_packet, earthquake,
}
use mundosvirtuales_terremot.Packet.Laws.{wire}
use mundosvirtuales_terremot.Security.{encrypt}
use mundosvirtuales_terremot.Channel.Fifo.{number-IsSent}
use mundosvirtuales_terremot.Client.Wire.{new_packet-IsPacket}
use mundosvirtuales_terremot.Report.Session.{
  process_packet, turns, latest, IsQuake, HasSlot, Leaves, run_stores,
}
use mundosvirtuales_terremot.Report.Leaving.{close, Without, run_client_frees}
use mundosvirtuales_terremot.Client.{Thread, Turn, max_error_comm}
use mundosvirtuales_terremot.Client.Laws.{count_bad}
use mundosvirtuales_terremot.Client.Ending.{closed, run_client}
use mundosvirtuales_terremot.Server.{client_at}
use mundosvirtuales_terremot.Tcp.{Socket}
use mundosvirtuales_terremot.Sensors.{ListSensors, new_measurement, max_size_sensors, measure_at}
use mundosvirtuales_terremot.Sensors.Laws.{IsValid}
use mundosvirtuales_terremot.SensorServer.{SensorServer}
use mundosvirtuales_terremot.Response.{plain_answer, process_sensor}
use mundosvirtuales_terremot.Client.{recv_message, run}
use mundosvirtuales_terremot.Handshake.Floats.{integer_floats}
use mundosvirtuales_terremot.Device.{Device}
use mundosvirtuales_terremot.Device.Accelerometer.{axis, setup, loop}
use mundosvirtuales_terremot.Device.Connecting.{up}
use mundosvirtuales_terremot.Device.Sensing.{Sensor, finished, sense}
use mundosvirtuales_terremot.Device.Alarming.{Alarm}
use mundosvirtuales_terremot.Alarm.{FloatOps, pass, send_alert}
use mundosvirtuales_terremot.Report.Alert.{sense-send_alert}
use mundosvirtuales_terremot.Report.{Sounds}

abbrev device : Device
device = record { id_device = pos 5; eeprom = pos 5; comm = record { id = 5; message_id = 3 } }

abbrev sensors : ListSensors
sensors = record {
  queue = replicate max_size_sensors new_measurement;
  next_pos = pos 2;
  active_sensors = pos 2;
  max_size = 2;
}

sensors-IsValid : IsValid sensors
sensors-IsValid = record {
  slots = length-replicate max_size_sensors new_measurement;
  total = omega arith;
  next = omega arith;
}

abbrev server : SensorServer
server = record {
  sensors = sensors;
  registers = [];
  pool = record {
    clients =
        record { local_id = pos 1; remote_id = pos 5; was_replaced = false; stopped = false } ∷ [];
    queue = 0 ∷ [];
  };
  file = [];
  index = 0;
}

abbrev socket : Socket
socket = record { handle = pos 5; was_connected = false; is_non_block = false }

abbrev strength : ℤ → ℕ
strength z = abs z

felt : (leb 16 (abs (axis 64 255)) && ltb (abs (axis 64 255)) 20) ≡ true
unfolding axis
felt = refl

weak : strength (axis 64 255) < 2 ^ 32
unfolding axis
weak = omega arith

abbrev alarm : Alarm
alarm = record { device = device; led = false; tones = 0 }

-- Numbers that count halves, within 32 bits.
abbrev halves : FloatOps
halves = record { plus = ◌+◌; over = λ a n. a / n % 2 ^ 32; above_half = λ c. ltb 1 c }

abbrev lone_server : SensorServer
lone_server = record server { sensors = record sensors { active_sensors = pos 1 } }

lone_sensors-IsValid : IsValid lone_server.sensors
lone_sensors-IsValid = record {
  slots = length-replicate max_size_sensors new_measurement;
  total = omega arith;
  next = omega arith;
}

sense-send_alert_example :
    (after : Sensor) × (bytes : List ℕ) × (p : Packet) × (u : SensorServer) × (mean : ℕ) × (sense
        integer_floats strength
        (record { device = device; station = loop setup ((4, 0) ∷ []); led = false })
        64
        255
        up
        true
      ≡ finished after (some bytes))
    × (recv_message (some bytes) ≡ some p)
    × (process_sensor 0 (pos 9000) 0 lone_server socket p ≡ some (u, socket, plain_answer 0))
    × (pass halves u.sensors (pos 9500) ≡ some mean)
    × (map (λ m. m.0) (send_alert mean 7 (3 ∷ 5 ∷ [])).0 ≡ 3 ∷ 5 ∷ [])
    × All (Sounds integer_floats alarm (7 ∷ [])) (send_alert mean 7 (3 ∷ 5 ∷ [])).0
sense-send_alert_example =
    sense-send_alert integer_floats halves strength device false ((4, 0) ∷ []) 64 255 lone_server
      socket 0 1 0 (pos 9000) (pos 9500) 7 (3 ∷ 5 ∷ []) alarm (7 ∷ []) felt weak (omega arith)
      (omega arith) lone_sensors-IsValid refl (omega arith) (omega arith) refl refl
      (λ a n. omega arith) refl

abbrev quake : ℕ → Packet
quake index = (number index (new_packet 77 earthquake)).0

quake-IsQuake : (index : ℕ) → IsQuake (quake index)
unfolding number
quake-IsQuake index = (
  number-IsSent index (new_packet 77 earthquake) (new_packet-IsPacket 77 earthquake (omega arith))
      refl,
  refl,
)

server-HasSlot : HasSlot 0 1 server
server-HasSlot = record {
  valid = sensors-IsValid;
  local = refl;
  inside = omega arith;
  within = omega arith;
}

run_stores_example :
    Leaves 1 2 2 (latest (pos 9000) (measure_at sensors 1) (quake 4 ∷ quake 5 ∷ [])) (
      run
        (process_packet 0 (pos 9000) 0)
        (record {
          state = (server, socket);
          index = 9;
          count_error = 2;
          stopped = false;
          output = [];
        })
        (turns (quake 4 ∷ quake 5 ∷ [])))
run_stores_example =
    run_stores 0 1 0 (pos 9000) server socket 9 2 [] (quake 4 ∷ quake 5 ∷ []) (omega arith)
      server-HasSlot (quake-IsQuake 4, (quake-IsQuake 5, tt))

-- A packet, and then three receives that fail.
abbrev failing : Turn
failing = record { stop_request = false; message = none }

abbrev last_turns : List Turn
last_turns =
    record { stop_request = false; message = some (wire (quake 3)) }
    ∷ failing
    ∷ failing
    ∷ failing
    ∷ []

abbrev thread : Thread (SensorServer × Socket)
thread = record {
  state = (server, socket);
  index = 0;
  count_error = 0;
  stopped = false;
  output = [];
}

enough : max_error_comm ≤ 0 + count_bad last_turns
unfolding to_bytes of_words to_words encrypt unpacking of_bytes number
enough = omega arith

run_client_frees_example :
    (u : SensorServer) × (t : Socket) × (run_client
        (process_packet 0 (pos 9000) 0)
        (some (close 0))
        thread
        last_turns
      ≡ closed (u, t))
    × (u.sensors.next_pos ≡ (client_at server.pool 0).local_id)
    × (u.sensors.active_sensors ≡ server.sensors.active_sensors -ℤ pos 1)
    × Without 0 server.pool.queue u.pool.queue
run_client_frees_example =
    run_client_frees 0 0 (pos 9000) thread last_turns (omega arith) enough refl refl
