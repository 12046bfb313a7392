-- ===== src/Sensors.antt =====
-- src/server/ListSensors.h and ListSensors.cpp: the measurements of the sensors, one slot to each.
-- `int` fields are integers: next_pos and active_sensors may be set to any value, max_size never
-- leaves the naturals. A `long` timestamp is an integer and a `float` its 32 bits.
pub mod Laws
mod Tests
use mundosvirtuales_terremot.Base.{
  ℕ, suc, ◌+◌, Bool, true, false, ◌&&◌, List, Option, none, some, if◌then◌else◌, ltb, replicate,
  get_elem?, set,
}
use mundosvirtuales_terremot.Base.Int.{ℤ, pos, negsuc, ◌+ℤ◌, ◌-ℤ◌, ltb_ℤ, leb_ℤ, pos_part}

-- MAX_SIZE_SENSORS
abbrev pub max_size_sensors : ℕ
max_size_sensors = 10000

pub record Measurement : Type 0 where
  pub intensity : ℕ
  pub timestamp : ℤ
  pub confidence : ℕ

-- The constructor: 0.f, 0L and 1.f.
abbrev pub new_measurement : Measurement
new_measurement = record { intensity = 0; timestamp = pos 0; confidence = 0x3f80_0000 }

pub record ListSensors : Type 0 where
  pub queue : List Measurement
  pub next_pos : ℤ
  pub active_sensors : ℤ
  pub max_size : ℕ

unfoldable pub new_list : ListSensors
new_list = record {
  queue = replicate max_size_sensors new_measurement;
  next_pos = pos 0;
  active_sensors = pos 0;
  max_size = 0;
}

unfoldable pub get_next_local_id : ListSensors → ℤ
get_next_local_id s = s.next_pos

-- `m_queue[id] = data` under the source's guard; `none` is a write outside of the array.
unfoldable pub append_measure : ListSensors → ℤ → Measurement → Option ListSensors
append_measure s id m =
    if leb_ℤ (pos 0) id && leb_ℤ id (pos s.max_size)
    then if ltb (pos_part id) max_size_sensors
      then some (record s { queue = set s.queue (pos_part id) m })
      else none
    else some s

unfoldable pub get_active_sensors : ListSensors → ℤ
get_active_sensors s = s.active_sensors

unfoldable pub get_current_total_sensors : ListSensors → ℕ
get_current_total_sensors s = s.max_size

-- The list after the call, and whether a slot was reserved.
unfoldable pub reserve_space : ListSensors → ListSensors × Bool
reserve_space s =
    let grown = s.max_size + 1 in
    let max_size = if ltb grown max_size_sensors then grown else max_size_sensors in
    let next = s.next_pos +ℤ pos 1 in
    if ltb_ℤ next (pos max_size_sensors)
    then (
      record s { max_size = max_size; next_pos = next; active_sensors = s.active_sensors +ℤ pos 1 },
      true,
    )
    else (record s { max_size = max_size; next_pos = next -ℤ pos 1 }, false)

unfoldable pub delete_space : ListSensors → ℤ → ListSensors
delete_space s id = record s { active_sensors = s.active_sensors -ℤ pos 1; next_pos = id }

-- operator[]; past the end the source is undefined.
unfoldable pub measure_at : ListSensors → ℕ → Option Measurement
measure_at s index = get_elem? s.queue index
