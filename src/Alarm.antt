-- ===== src/Alarm.antt =====
-- src/server/RequestAlarm.cpp: the tally of the measurements and the alert. The arithmetic of `float` is a
-- parameter; counts are of `int`. A pass of the loop of `run` is `pass`, between two sleeps.
pub mod Laws
pub mod Watch
mod Tests
use mundosvirtuales_terremot.Base.{
  ℕ, zero, suc, ◌+◌, ◌/◌, Bool, true, false, not, ◌&&◌, List, [], ◌∷◌, Option, none, some,
  if◌then◌else◌, ltb, get_or,
}
use mundosvirtuales_terremot.Base.Int.{ℤ, pos, negsuc, ◌-ℤ◌, ltb_ℤ}
use mundosvirtuales_terremot.Packet.{
  Packet, alive, earthquake, command_code, new_packet, packing, to_bytes,
}
use mundosvirtuales_terremot.Sensors.{
  Measurement, new_measurement, ListSensors, get_active_sensors, get_current_total_sensors,
}

-- `a + b`, `a / n` for a count `n`, and `a > 0.5f` in single precision.
pub record FloatOps : Type 0 where
  pub plus : ℕ → ℕ → ℕ
  pub over : ℕ → ℕ → ℕ
  pub above_half : ℕ → Bool

-- The locals `intensity` and `validSensors`.
pub record Tally : Type 0 where
  pub intensity : ℕ
  pub valid_sensors : ℕ

abbrev pub new_tally : Tally
new_tally = record { intensity = 0; valid_sensors = 0 }

-- (validSensors / getActiveSensors()) > 0.5f, a quotient of integers: for a negative divisor it is
-- not positive. The source tests for zero before.
abbrev pub exceeds_half : ℕ → ℤ → Bool
exceeds_half valid (pos zero) = false
exceeds_half valid (pos (suc a)) = ltb 0 (valid / suc a)
exceeds_half valid (negsuc a) = false

module _ (f : FloatOps) where
  -- The body of the `for` loop for one measurement.
  unfoldable pub count_measure : ℤ → Measurement → Tally → Tally
  count_measure time m t =
      if ltb_ℤ (time -ℤ m.timestamp) (pos 5000)
      then (if f.above_half m.confidence
          then record {
            intensity = f.plus t.intensity m.intensity;
            valid_sensors = t.valid_sensors + 1;
          }
          else t)
      else t

  -- The `for` loop from index `i` on, with the measurements left.
  unfoldable pub count_measures : ListSensors → ℤ → ℕ → ℕ → Tally → Tally
  count_measures s time zero i t = t
  count_measures s time (suc left) i t =
      count_measures s time left (i + 1) (count_measure time (get_or s.queue i new_measurement) t)

  -- One pass of `run` after the sleep: the mean intensity that is sent, if an alert is.
  unfoldable pub pass : ListSensors → ℤ → Option ℕ
  unfolding count_measures get_current_total_sensors get_active_sensors
  pass s time =
      let total = get_current_total_sensors s in
      let t = count_measures s time total 0 new_tally in
      if ltb 0 total && exceeds_half t.valid_sensors (get_active_sensors s)
      then some (f.over t.intensity t.valid_sensors)
      else none

-- packetAlert of `sendAlert`.
abbrev pub alert_packet : ℕ → Packet
alert_packet mean = record (new_packet mean alive) {
  header = record ((new_packet mean alive).header) {
    command = command_code earthquake;
    id_device = 0;
    id_response = 0;
  };
}

-- `sendAlert`: the bytes handed to each client of the queue, and the request index.
unfoldable pub send_alert : ℕ → ℕ → List ℕ → List (ℕ × List ℕ) × ℕ
send_alert mean index [] = ([], index)
send_alert mean index (ref ∷ refs) =
    let (packet, index') = packing index (alert_packet mean) in
    let (rest, index'') = send_alert mean index' refs in ((ref, to_bytes packet) ∷ rest, index'')
