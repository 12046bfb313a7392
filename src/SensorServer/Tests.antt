-- ===== src/SensorServer/Tests.antt =====
-- Runs of the sensor server.
use mundosvirtuales_terremot.Server.{Client, new_client, client_at, remove_client_from_queue}
use mundosvirtuales_terremot.Sensors.{delete_space}
use mundosvirtuales_terremot.Queue.{remove_item, erase_first}
use mundosvirtuales_terremot.Handshake.{Identity}
use mundosvirtuales_terremot.SensorServer.{remove_client}
use mundosvirtuales_terremot.SensorServer.Returning.{returning_client_shares}
use mundosvirtuales_terremot.Base.Int.{◌-ℤ◌}
use mundosvirtuales_terremot.Base.{◌++◌, map, false, ℕ, ◌≡◌, refl, true, [], ◌∷◌, some, arith}
use mundosvirtuales_terremot.Base.Int.{pos, negsuc}
use mundosvirtuales_terremot.Security.{encrypt, decrypt}
use mundosvirtuales_terremot.Packet.{
  Packet, acknowledge_client, command_code, version_packet, to_bytes, packing, to_words, of_words,
  of_bytes, unpacking, number,
}
use mundosvirtuales_terremot.Client.{recv_message}
use mundosvirtuales_terremot.Sensors.{new_list, get_next_local_id, reserve_space}
use mundosvirtuales_terremot.Sensors.Laws.{IsValid}
use mundosvirtuales_terremot.Server
use mundosvirtuales_terremot.Server.Laws.{has}
use mundosvirtuales_terremot.Server.Accept.{Pass, ended, stop}
use mundosvirtuales_terremot.SensorServer.Serving.{serve, serve_ends}
use mundosvirtuales_terremot.Registry.{
  RemoteClientData, unbound, load, find_register, get_new_remote_id,
}
use mundosvirtuales_terremot.Handshake.{Exchange, identify}
use mundosvirtuales_terremot.Handshake.Floats.{integer_floats}
use mundosvirtuales_terremot.SensorServer.{
  SensorServer, start, admit, add_client, update_list_sensor,
}
use mundosvirtuales_terremot.Base.Bag.{bag}
use mundosvirtuales_terremot.SensorServer.Registered.{infos}
use mundosvirtuales_terremot.SensorServer.Durable.{alarm_records, restart_same_bag}
use mundosvirtuales_terremot.SensorServer.Invariant.{Admitted, add_client-Inv}
use mundosvirtuales_terremot.SensorServer.Registered.{Distinct, add_client-Distinct}
use mundosvirtuales_terremot.SensorServer.Threads.{Run, record_alarm}
use mundosvirtuales_terremot.SensorServer.History.{
  Reach, connected, begin, here, next, connect, other, start-Inv, measure_safe,
}

-- The answer of a device with the identification 5.
abbrev answer : Packet
answer = record {
  header = record {
    version = version_packet;
    command = command_code acknowledge_client;
    flags = 0;
    id_device = 5;
    id_response = 1;
  };
  payload = 0;
}

abbrev exchange : Exchange
exchange = record {
  answer = some (to_bytes (packing 0 answer).0);
  renew_sent = true;
  confirmation = some [];
  junk_ack = 0;
  time = 0;
}

abbrev device : ℕ → RemoteClientData
device id = record { remote_id = pos id; create_timestamp = 0; lat = 0; lng = 0 }

abbrev server : SensorServer
server = record {
  sensors = new_list;
  registers = unbound (device 5) ∷ unbound (device 6) ∷ [];
  pool = record { clients = []; queue = [] };
  file = device 5 ∷ device 6 ∷ [];
  index = 0;
}

add_client-Distinct_example : Distinct (add_client integer_floats server exchange).0.registers
add_client-Distinct_example =
    add_client-Distinct integer_floats server exchange (omega arith) ((refl, tt), (tt, tt))

add_client-Inv_example :
    Admitted [] (add_client integer_floats (start (some (device 5 ∷ [])) 0) exchange)
add_client-Inv_example =
    add_client-Inv integer_floats (start (some (device 5 ∷ [])) 0) [] exchange
      (start-Inv (some (device 5 ∷ [])) 0)

abbrev first_run : Run
first_run = connected integer_floats (begin (some (device 5 ∷ [])) 0) exchange

first_runs : has 0 first_run.started ≡ true
unfolding start add_client admit new_list load get_next_local_id reserve_space find_register
    Server.add_client identify recv_message unpacking of_bytes packing number to_bytes of_words
    to_words encrypt decrypt
first_runs = refl

measure_safe_example :
    (s : SensorServer) × (update_list_sensor first_run.server 0 77 (pos 1000) ≡ some s)
    × IsValid s.sensors
measure_safe_example =
    measure_safe integer_floats (some (device 5 ∷ [])) 0 first_run 0 77 (pos 1000)
      (next here (connect exchange)) first_runs

abbrev leaving : Client
leaving = record { local_id = pos 1; remote_id = pos 5; was_replaced = false; stopped = true }

abbrev before_leaving : SensorServer
before_leaving = record server {
  registers = record { info = device 5; client = some 0 } ∷ [];
  pool = record { clients = leaving ∷ new_client ∷ []; queue = 0 ∷ 1 ∷ [] };
}

abbrev after_leaving : SensorServer
after_leaving = record before_leaving {
  pool = record { clients = leaving ∷ new_client ∷ []; queue = 1 ∷ [] };
  sensors = delete_space new_list (pos 1);
}

leaves : remove_client before_leaving 0 ≡ some after_leaving
unfolding remove_client remove_client_from_queue remove_item erase_first
leaves = refl

abbrev returning : Identity
returning = record {
  remote_id = pos 5;
  valid = true;
  is_new = false;
  id_device = 5;
  sent = [];
  index = 1;
}

found_again : find_register (pos 5) after_leaving.registers ≡ some 0
unfolding find_register
found_again = refl

returning_client_shares_example :
    let u = (admit after_leaving returning (pos 1) 1 0).0 in
    ((client_at u.pool 1).local_id ≡ get_next_local_id u.sensors)
    × (u.sensors.active_sensors ≡ before_leaving.sensors.active_sensors -ℤ pos 1)
returning_client_shares_example =
    returning_client_shares before_leaving after_leaving 0 1 0 returning (pos 1) 0 refl leaves
      (omega arith) refl found_again refl

abbrev stopping : Pass Run
stopping = record { others = λ r. r; is_stopped = true; socket = negsuc 0 }

serve_ends_example :
    let closed : Run = record first_run {
      server = record (first_run.server) { pool = (stop first_run.server.pool).0 };
    } in
    serve integer_floats (λ socket. exchange) closed (stopping ∷ []) ≡ ended closed
unfolding stop
serve_ends_example =
    serve_ends integer_floats (λ socket. exchange) first_run stopping [] refl (λ r e. e)

-- A device without an identification, which takes the one that it is given.
abbrev answer_with : ℕ → Packet
answer_with id = record answer { header = record (answer.header) { id_device = id } }

abbrev renewing : Exchange
renewing = record exchange {
  answer = some (to_bytes (packing 0 (answer_with 0xffff_ffff)).0);
  confirmation = some (to_bytes (packing 0 (answer_with 2)).0);
}

abbrev grown : Run
grown = connected integer_floats (begin (some (device 5 ∷ [])) 0) renewing

grown-file : map (λ r. r.remote_id) grown.server.file ≡ pos 5 ∷ pos 2 ∷ []
unfolding start add_client admit new_list load get_next_local_id reserve_space find_register
    Server.add_client identify recv_message unpacking of_bytes packing number to_bytes of_words
    to_words encrypt decrypt get_new_remote_id
grown-file = refl

-- A new device, and then a new alarm.
abbrev noted : Run
noted = record grown {
  server = record (grown.server) { file = grown.server.file ++ device 9 ∷ [] };
}

abbrev grown_history : Reach integer_floats (begin (some (device 5 ∷ [])) 0) noted
grown_history = next (next here (connect renewing)) (other (record_alarm (device 9)))

restart_same_bag_example :
    bag (infos (start (some noted.server.file) 7).registers)
    ≡ bag (infos noted.server.registers ++ alarm_records grown_history)
restart_same_bag_example = restart_same_bag integer_floats (device 5 ∷ []) 0 7 noted grown_history
