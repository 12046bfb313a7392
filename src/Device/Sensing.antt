-- ===== src/Device/Sensing.antt =====
-- arduino/TerremotoDevice/TerremotoDeviceUpdated.ino: `setup` and `AccelerometerRead` from the test of the connection on, and the bus.
use mundosvirtuales_terremot.Base.{
  ℕ, ◌+◌, Bool, true, false, List, [], ◌∷◌, Option, none, some, if◌then◌else◌, ltb, length, set,
}
use mundosvirtuales_terremot.Base.Int.{ℤ}
use mundosvirtuales_terremot.Packet.{earthquake}
use mundosvirtuales_terremot.Handshake.{FloatOps}
use mundosvirtuales_terremot.Device.{Device, send_message}
use mundosvirtuales_terremot.Device.Accelerometer.{Station, axis, accelerometer_read}
use mundosvirtuales_terremot.Device.Connecting.{Upkeep, reconnect}

-- The globals with the pin of the buzzer.
pub record Sensor : Type 0 where
  pub device : Device
  pub station : Station
  pub led : Bool

-- The end of a pass: a division by zero, a `connectToServer` that has not returned, or the state with the
-- bytes that are written.
pub data Reading : Type 0 where
  undefined : Reading
  reconnecting : Reading
  finished : Sensor → Option (List ℕ) → Reading

-- The test of `ratio`; `h` is the payload, and `is_connected` what `SendMessage` finds.
abbrev pub report : Sensor → ℕ → Bool → Bool → Reading
report s h is_connected true =
    let (comm, bytes) = send_message s.device.comm earthquake (some h) 0 is_connected in
    finished (record s { device = record (s.device) { comm = comm }; led = true }) bytes
report s h is_connected false = finished (record s { led = false }) none

-- `AccelerometerRead` on the two bytes that are used; `intensity` is abs(z/4096.0) in single precision.
unfoldable pub sense : FloatOps → (ℤ → ℕ) → Sensor → ℕ → ℕ → Upkeep → Bool → Reading
unfolding accelerometer_read reconnect
sense f intensity s low high upkeep is_connected =
    let (station, detected) = accelerometer_read s.station low high in
    elim detected [
      | none ↦ undefined
      | some shaking ↦ elim (reconnect f s.device upkeep) [
        | none ↦ reconnecting
        | some d ↦
            report (record s { device = d; station = station }) (intensity (axis low high))
              is_connected shaking
      ]
    ]

-- `readFrom` with the bytes that the bus delivers; `none` is a write past the end of `buff`.
unfoldable pub read_from : List ℕ → ℕ → List ℕ → Option (List ℕ)
read_from buff i [] = some buff
read_from buff i (b ∷ bus) =
    let more = read_from (set buff i b) (i + 1) bus in if ltb i (length buff) then more else none
