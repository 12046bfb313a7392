-- ===== src/Sensors/Tests.antt =====
-- Runs of the list of sensors.

use mundosvirtuales_terremot.Base.{ℕ, ◌<◌, ◌≤◌, replicate, length-replicate}
use mundosvirtuales_terremot.Base.Int.{pos}
use mundosvirtuales_terremot.Sensors.{max_size_sensors, Measurement, new_measurement, ListSensors}
use mundosvirtuales_terremot.Sensors.Laws.{IsValid}

-- Two of the sensors are active, and `total` slots were handed out.
abbrev list : ℕ → ℕ → ListSensors
list next total = record {
  queue = replicate max_size_sensors new_measurement;
  next_pos = pos next;
  active_sensors = pos 2;
  max_size = total;
}

list-IsValid :
    (next total : ℕ)
    → next < max_size_sensors
    → total ≤ max_size_sensors
    → IsValid (list next total)
list-IsValid next total h k = record {
  slots = length-replicate max_size_sensors new_measurement;
  total = k;
  next = h;
}

abbrev shake : Measurement
shake = record { intensity = 7; timestamp = pos 1000; confidence = 0 }
