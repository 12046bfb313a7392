-- ===== src/AlarmServer.antt =====
-- src/server/ServerAlarm.cpp: the server of the alarms. Its constructor and `getNewRemoteID` are those of
-- Registry, its exchange with a device is that of Handshake. `m_nextID` is an integer: it is
-- counted up once for each connection, so it stays far from the bounds of `int`.
pub mod Laws
pub mod Stopping
pub mod LocalIds
mod Tests
use mundosvirtuales_terremot.Base.{
  ℕ, Bool, true, false, not, ◌&&◌, List, [], ◌∷◌, ◌++◌, Option, none, some, if◌then◌else◌, get_or,
  set,
}
use mundosvirtuales_terremot.Base.Int.{ℤ, pos, ◌+ℤ◌, leb_ℤ, signed32}
use mundosvirtuales_terremot.Server
use mundosvirtuales_terremot.Server.{
  Pool, client_at, stop_client, set_replaced, set_client_id, remove_client_from_queue,
}
use mundosvirtuales_terremot.Registry.{
  RemoteClientData, PairClientData, new_pair, load, find_register,
}
use mundosvirtuales_terremot.Handshake.{FloatOps, Exchange, Identity, identify}
use mundosvirtuales_terremot.SensorServer.{default_lat, default_lng}

-- m_listRemoteClientData, m_queueClients, m_nextID, the files FILE_REMOTE_DATA_ALARMS and
-- FILE_REMOTE_DATA_SENSORS, and the request index.
pub record AlarmServer : Type 0 where
  pub registers : List PairClientData
  pub pool : Pool
  pub next_id : ℤ
  pub alarms_file : List RemoteClientData
  pub sensors_file : List RemoteClientData
  pub index : ℕ

-- What a file holds; `none` is a file that cannot be opened.
abbrev pub content : Option (List RemoteClientData) → List RemoteClientData
content none = []
content (some records) = records

-- The constructor reads the file of the alarms.
unfoldable pub start : Option (List RemoteClientData) → List RemoteClientData → ℕ → AlarmServer
start alarms sensors index = record {
  registers = load alarms;
  pool = record { clients = []; queue = [] };
  next_id = pos 0;
  alarms_file = content alarms;
  sensors_file = sensors;
  index = index;
}

abbrev pub next_local_id : AlarmServer → ℤ
next_local_id s = s.next_id

-- `m_nextID++`
abbrev pub count_id : AlarmServer → AlarmServer
count_id s = record s { next_id = s.next_id +ℤ pos 1 }

-- A known device, whose register at `i` holds no client or the client `last`.
abbrev pub replace_client : AlarmServer → ℤ → ℤ → ℕ → ℕ → Option ℕ → AlarmServer
replace_client s new_id remote ref i none = record (count_id s) {
  registers = set s.registers i (record (get_or s.registers i new_pair) { client = some ref });
  pool = set_client_id s.pool ref new_id remote;
}
replace_client s new_id remote ref i (some last) = record s {
  registers = set s.registers i (record (get_or s.registers i new_pair) { client = some ref });
  pool =
      set_client_id (set_replaced (stop_client s.pool last) last) ref
        (client_at s.pool last).local_id remote;
}

-- A device without a register: a new one is written to the file of the sensors.
abbrev pub register_client : AlarmServer → Identity → ℤ → ℕ → ℕ → AlarmServer
register_client s who new_id ref time =
    let info : RemoteClientData = record {
      remote_id = signed32 who.id_device;
      create_timestamp = time;
      lat = default_lat;
      lng = default_lng;
    } in
    let named = record (count_id s) { pool = set_client_id s.pool ref new_id who.remote_id } in
    if who.is_new
    then record named {
      sensors_file = s.sensors_file ++ info ∷ [];
      registers = s.registers ++ record { info = info; client = some ref } ∷ [];
    }
    else named

abbrev pub reject_client : AlarmServer → ℕ → AlarmServer × Option ℕ
reject_client s ref = (record s { pool = stop_client s.pool ref }, none)

-- From the lookup of the register on, with its result.
abbrev pub admit_at : AlarmServer → Identity → ℤ → ℕ → ℕ → Option ℕ → AlarmServer × Option ℕ
admit_at s who new_id ref time none = (register_client s who new_id ref time, some ref)
admit_at s who new_id ref time (some i) =
    (replace_client s new_id who.remote_id ref i (get_or s.registers i new_pair).client, some ref)

unfoldable pub admit : AlarmServer → Identity → ℤ → ℕ → ℕ → AlarmServer × Option ℕ
admit s who new_id ref time =
    if who.valid
    then admit_at s who new_id ref time (find_register who.remote_id s.registers)
    else reject_client s ref

-- `addClient`: the state after it and the pointer that it returns.
unfoldable pub add_client : FloatOps → AlarmServer → Exchange → AlarmServer × Option ℕ
unfolding admit
add_client f s x =
    let (pool, ref) = Server.add_client s.pool in
    let new_id = next_local_id s in
    let joined = record s { pool = pool } in
    if leb_ℤ (pos 0) new_id
    then (let who = identify f s.registers x s.index in
        admit (record joined { index = who.index }) who new_id ref x.time)
    else reject_client joined ref

-- `remove_client_from_queue`; `none` is a thread that waits.
unfoldable pub remove_client : AlarmServer → ℕ → Option AlarmServer
remove_client s ref = elim (remove_client_from_queue s.pool ref) [
  | none ↦ none
  | some pool ↦
      let c = client_at pool ref in
      if not c.was_replaced
      then some (record s { pool = pool; next_id = c.local_id })
      else some (record s { pool = pool })
]
