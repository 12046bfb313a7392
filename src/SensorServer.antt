-- ===== src/SensorServer.antt =====
-- src/server/ServerSensors.cpp: the server of the sensors. `accept` hands a connection to `add_client`;
-- `ServerSensors::Instance()` is the same object, so one state stands for both.
pub mod Cases
pub mod Placed
pub mod Invariant
pub mod Registered
pub mod Threads
pub mod History
pub mod Returning
pub mod Remembered
pub mod Durable
pub mod Serving
mod Tests
use mundosvirtuales_terremot.Base.{
  ℕ, Bool, true, false, not, ◌&&◌, List, [], ◌∷◌, ◌++◌, Option, none, some, if◌then◌else◌, get_or,
  set,
}
use mundosvirtuales_terremot.Base.Int.{ℤ, pos, leb_ℤ, signed32}
use mundosvirtuales_terremot.Sensors.{
  ListSensors, Measurement, new_list, new_measurement, get_next_local_id, append_measure,
  reserve_space, delete_space,
}
use mundosvirtuales_terremot.Server
use mundosvirtuales_terremot.Server.{
  Client, Pool, client_at, stop_client, set_replaced, set_client_id, remove_client_from_queue,
}
use mundosvirtuales_terremot.Registry.{
  RemoteClientData, PairClientData, new_pair, load, find_register,
}
use mundosvirtuales_terremot.Handshake.{FloatOps, Exchange, Identity, identify}

-- m_listSensors, m_listRemoteClientData, m_queueClients, the file of sensors and the request index.
pub record SensorServer : Type 0 where
  pub sensors : ListSensors
  pub registers : List PairClientData
  pub pool : Pool
  pub file : List RemoteClientData
  pub index : ℕ

-- The constructor; `file` is what an earlier run has written, `none` without one.
unfoldable pub start : Option (List RemoteClientData) → ℕ → SensorServer
unfolding new_list
start file index = record {
  sensors = new_list;
  registers = load file;
  pool = record { clients = []; queue = [] };
  file = elim file [ none ↦ [] | some records ↦ records ];
  index = index;
}

-- The bits of -33.4381664 and of -70.6474686.
abbrev pub default_lat : ℕ
default_lat = 0xc040_b815_d62b_1a60

abbrev pub default_lng : ℕ
default_lng = 0xc051_a970_2023_8bf6

-- A known device, whose register at `i` holds no client or the client `last`: the register gets the
-- new client, which takes the slot of the last one.
abbrev pub replace_client : SensorServer → ℤ → ℤ → ℕ → ℕ → Option ℕ → SensorServer
replace_client s new_id remote ref i none = record s {
  sensors = (reserve_space s.sensors).0;
  registers = set s.registers i (record (get_or s.registers i new_pair) { client = some ref });
  pool = set_client_id s.pool ref new_id remote;
}
replace_client s new_id remote ref i (some last) = record s {
  registers = set s.registers i (record (get_or s.registers i new_pair) { client = some ref });
  pool =
      set_client_id (set_replaced (stop_client s.pool last) last) ref
        (client_at s.pool last).local_id remote;
}

-- A device without a register, whose identification is valid and has a slot.
abbrev pub register_client : SensorServer → Identity → ℤ → ℕ → ℕ → SensorServer
register_client s who new_id ref time =
    let info : RemoteClientData = record {
      remote_id = signed32 who.id_device;
      create_timestamp = time;
      lat = default_lat;
      lng = default_lng;
    } in
    let named = record s { pool = set_client_id s.pool ref new_id who.remote_id } in
    if who.is_new
    then record named {
      file = s.file ++ info ∷ [];
      registers = s.registers ++ record { info = info; client = some ref } ∷ [];
    }
    else named

-- The end of `addClient` for a client that is turned away.
abbrev pub reject_client : SensorServer → ℕ → SensorServer × Option ℕ
reject_client s ref = (record s { pool = stop_client s.pool ref }, none)

-- From the lookup of the register on, with its result: `newID` was read before the exchange.
abbrev pub admit_at : SensorServer → Identity → ℤ → ℕ → ℕ → Option ℕ → SensorServer × Option ℕ
admit_at s who new_id ref time (some i) =
    (replace_client s new_id who.remote_id ref i (get_or s.registers i new_pair).client, some ref)
admit_at s who new_id ref time none =
    let (list, reserved) = reserve_space s.sensors in
    let counted = record s { sensors = list } in
    if reserved
    then (register_client counted who new_id ref time, some ref)
    else reject_client counted ref

unfoldable pub admit : SensorServer → Identity → ℤ → ℕ → ℕ → SensorServer × Option ℕ
admit s who new_id ref time =
    if who.valid
    then admit_at s who new_id ref time (find_register who.remote_id s.registers)
    else reject_client s ref

-- `addClient`: the state after it and the pointer that it returns.
unfoldable pub add_client : FloatOps → SensorServer → Exchange → SensorServer × Option ℕ
unfolding admit
add_client f s x =
    let (pool, ref) = Server.add_client s.pool in
    let new_id = get_next_local_id s.sensors in
    let joined = record s { pool = pool } in
    if leb_ℤ (pos 0) new_id
    then (let who = identify f s.registers x s.index in
        admit (record joined { index = who.index }) who new_id ref x.time)
    else reject_client joined ref

-- `addClient` while other threads go on: `s` is the server when it reads `newID` and the registers, `t` the server when the
-- exchange with the client has ended.
unfoldable pub add_client_over :
    FloatOps → SensorServer → Exchange → SensorServer → SensorServer × Option ℕ
unfolding admit
add_client_over f s x t =
    let ref = (Server.add_client s.pool).1 in
    let new_id = get_next_local_id s.sensors in
    if leb_ℤ (pos 0) new_id
    then admit t (identify f s.registers x s.index) new_id ref x.time
    else reject_client t ref

-- `remove_client_from_queue`; `none` is a thread that waits.
unfoldable pub remove_client : SensorServer → ℕ → Option SensorServer
remove_client s ref = elim (remove_client_from_queue s.pool ref) [
  | none ↦ none
  | some pool ↦
      let c = client_at pool ref in
      if not c.was_replaced
      then some (record s { pool = pool; sensors = delete_space s.sensors c.local_id })
      else some (record s { pool = pool })
]

-- `ResponseSensors::updateListSensor` for the client at `ref`; `none` is a write outside of the array.
unfoldable pub update_list_sensor : SensorServer → ℕ → ℕ → ℤ → Option SensorServer
update_list_sensor s ref payload timestamp =
    elim (append_measure s.sensors (client_at s.pool ref).local_id
      (record new_measurement { timestamp = timestamp; intensity = payload })) [
        | none ↦ none
        | some list ↦ some (record s { sensors = list })
      ]
