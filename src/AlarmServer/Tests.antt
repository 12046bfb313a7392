-- ===== src/AlarmServer/Tests.antt =====
-- Runs of the server of the alarms.
use mundosvirtuales_terremot.Base.{ℕ, ◌<◌, arith, false, ◌≡◌, List, [], ◌∷◌, some, true, refl}
use mundosvirtuales_terremot.Base.Int.{pos, negsuc}
use mundosvirtuales_terremot.Packet.{
  Packet, acknowledge_client, command_code, version_packet, to_bytes, packing,
}
use mundosvirtuales_terremot.Registry.{RemoteClientData, unbound, find_register}
use mundosvirtuales_terremot.Handshake.{Exchange, identify}
use mundosvirtuales_terremot.Handshake.Floats.{integer_floats}
use mundosvirtuales_terremot.AlarmServer.{AlarmServer, add_client, remove_client}
use mundosvirtuales_terremot.Server.{
  Client, client_at, new_client, exist_client, remove_client_from_queue,
}
use mundosvirtuales_terremot.Client.{recv_message}
use mundosvirtuales_terremot.Server.Laws.{has}
use mundosvirtuales_terremot.Server.Accept.{Pass, serving}
use mundosvirtuales_terremot.AlarmServer.Stopping.{serve, serve_goes_on}
use mundosvirtuales_terremot.AlarmServer.LocalIds.{IsNewcomer, second_newcomer_shares}
use mundosvirtuales_terremot.AlarmServer.Laws.{Misplaced, add_client-Misplaced}

-- The answer of a device with the identification 5.
abbrev answer : Packet
answer = record {
  header = record {
    version = version_packet;
    command = command_code acknowledge_client;
    flags = 0;
    id_device = 5;
    id_response = 1;
  };
  payload = 0;
}

abbrev exchange : Exchange
exchange = record {
  answer = some (to_bytes (packing 0 answer).0);
  renew_sent = true;
  confirmation = some [];
  junk_ack = 0;
  time = 0;
}

abbrev device : ℕ → RemoteClientData
device id = record { remote_id = pos id; create_timestamp = 0; lat = 0; lng = 0 }

abbrev server : AlarmServer
server = record {
  registers = unbound (device 5) ∷ unbound (device 6) ∷ [];
  pool = record { clients = []; queue = [] };
  next_id = pos 0;
  alarms_file = device 5 ∷ device 6 ∷ [];
  sensors_file = [];
  index = 0;
}

add_client-Misplaced_example : Misplaced server (add_client integer_floats server exchange).0
add_client-Misplaced_example = add_client-Misplaced integer_floats server exchange

abbrev busy : AlarmServer
busy = record server { pool = record { clients = new_client ∷ []; queue = 0 ∷ [] } }

abbrev passes : List (Pass AlarmServer)
passes =
    record { others = λ s. s; is_stopped = true; socket = negsuc 0 }
    ∷ record { others = λ s. s; is_stopped = true; socket = pos 7 }
    ∷ []

busy_exists : exist_client busy.pool ≡ true
unfolding exist_client
busy_exists = refl

serve_goes_on_example :
    (t : AlarmServer) × (serve integer_floats (λ socket. exchange) busy passes ≡ serving t)
    × (exist_client t.pool ≡ true)
serve_goes_on_example =
    serve_goes_on integer_floats (λ socket. exchange) busy passes busy_exists
      (λ s e. e, (λ s e. e, tt))

-- The device with the identification 7.
abbrev later : Exchange
later = record exchange {
  answer = some (
      to_bytes (packing 0 (record answer { header = record (answer.header) { id_device = 7 } })).0);
}

-- Two alarms, of which the first leaves.
abbrev first : Client
first = record { local_id = pos 0; remote_id = pos 5; was_replaced = false; stopped = false }

abbrev other : Client
other = record { local_id = pos 1; remote_id = pos 6; was_replaced = false; stopped = false }

abbrev two_alarms : AlarmServer
two_alarms = record server {
  registers = [];
  pool = record { clients = first ∷ other ∷ []; queue = 0 ∷ 1 ∷ [] };
  next_id = pos 2;
}

abbrev one_alarm : AlarmServer
one_alarm = record two_alarms {
  pool = record { clients = first ∷ other ∷ []; queue = 1 ∷ [] };
  next_id = pos 0;
}

leaves : remove_client two_alarms 0 ≡ some one_alarm
unfolding remove_client remove_client_from_queue
leaves = refl

one_alarm-IsNewcomer : IsNewcomer integer_floats one_alarm exchange
unfolding identify find_register recv_message to_bytes packing
one_alarm-IsNewcomer = record { valid = refl; unknown = refl }

add_client-IsNewcomer :
    IsNewcomer integer_floats (add_client integer_floats one_alarm exchange).0 later
unfolding add_client identify find_register recv_message to_bytes packing
add_client-IsNewcomer = record { valid = refl; unknown = refl }

second_newcomer_shares_example :
    let u = (add_client integer_floats (add_client integer_floats one_alarm exchange).0 later).0 in
    ((client_at u.pool 3).local_id ≡ (client_at u.pool 1).local_id)
    × (1 < 3)
    × (has 1 u.pool.queue ≡ true)
    × (has 3 u.pool.queue ≡ true)
second_newcomer_shares_example =
    second_newcomer_shares integer_floats two_alarms one_alarm 0 1 0 exchange later refl refl leaves
      (omega arith) refl refl one_alarm-IsNewcomer add_client-IsNewcomer
