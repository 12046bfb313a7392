-- ===== src/Report.antt =====
-- The program end to end: a sensor feels an earthquake and the server stores its measurement, and an
-- alert of the server sounds an alarm. arduino/TerremotoDevice/TerremotoDeviceUpdated.ino and
-- arduino/AlarmDevice/AlarmDevice.ino against src/server/ResponseSensors.cpp and src/server/RequestAlarm.cpp.
pub mod Alert
pub mod Session
pub mod Leaving
pub mod Remembering
mod Tests
mod Visits
use mundosvirtuales_terremot.Base.{
  ℕ, ◌+◌, ◌<◌, ◌≤◌, ◌^◌, ◌≡◌, refl, sym, ap, ◌∙◌, Bool, true, false, ◌&&◌, List, [], ◌∷◌, ◌++◌,
  Option, none, some, arith, leb, ltb, if◌then◌else◌, ◌==◌, ==_self, suc, All,
}
use mundosvirtuales_terremot.Base.Int.{ℤ, pos, abs}
use mundosvirtuales_terremot.Packet.{Packet, IsPacket, earthquake, number, packing}
use mundosvirtuales_terremot.Packet.Laws.{wire, to_bytes-packing}
use mundosvirtuales_terremot.Sensors.{ListSensors, new_measurement, measure_at, max_size_sensors}
use mundosvirtuales_terremot.Sensors.Laws.{IsValid}
use mundosvirtuales_terremot.Tcp.{Socket}
use mundosvirtuales_terremot.Server.{client_at}
use mundosvirtuales_terremot.Client.{recv_message}
use mundosvirtuales_terremot.Client.Wire.{recv_message-wire}
use mundosvirtuales_terremot.Handshake.{FloatOps}
use mundosvirtuales_terremot.SensorServer.{SensorServer}
use mundosvirtuales_terremot.Response.{process_sensor, plain_answer}
use mundosvirtuales_terremot.Response.Laws.{process_sensor_stores}
use mundosvirtuales_terremot.Device.{Device, ServerComm, out_message, send_message}
use mundosvirtuales_terremot.Device.Accelerometer.{Station, axis, accelerometer_read, setup, loop}
use mundosvirtuales_terremot.Device.Detection.{accelerometer_read-loop}
use mundosvirtuales_terremot.Device.Connecting.{up, reconnect}
use mundosvirtuales_terremot.Device.Alarming
use mundosvirtuales_terremot.Device.Alarming.{Alarm, loop-wire}
use mundosvirtuales_terremot.Alarm.{alert_packet, send_alert}
use mundosvirtuales_terremot.Channel.Fifo.{number-IsSent}
use mundosvirtuales_terremot.Device.Sensing.{Sensor, Reading, finished, sense}

felt :
    (a : ℕ)
    → (leb 16 a && ltb a 20) ≡ true
    → (if ltb a 10 then none else some (leb 16 a && ltb a 20)) ≡ some true
felt a e = let far : ltb a 10 ≡ false = ground arith in rw (far, e) refl

-- The message of a sensor that feels an earthquake, and the state after it.
abbrev pub quake_message : (ℤ → ℕ) → Device → ℕ → ℕ → Packet
quake_message intensity d low high =
    out_message d.comm earthquake (some (intensity (axis low high))) 0

abbrev pub shaken : (ℤ → ℕ) → Device → List (ℕ × ℕ) → ℕ → ℕ → Sensor
shaken intensity d readings low high = record {
  device = record d {
    comm = (send_message d.comm earthquake (some (intensity (axis low high))) 0 true).0;
  };
  station = (accelerometer_read (loop setup readings) low high).0;
  led = true;
}

-- The sensor writes the message, and the server receives it.
pub sense-recv_message :
    (f : FloatOps) (intensity : ℤ → ℕ) (d : Device) (led : Bool)
    → (readings : List (ℕ × ℕ)) (low high : ℕ)
    → (leb 16 (abs (axis low high)) && ltb (abs (axis low high)) 20) ≡ true
    → intensity (axis low high) < 2 ^ 32
    → d.comm.id < 2 ^ 32
    → d.comm.message_id < 2 ^ 32
    → (sense f intensity
          (record { device = d; station = loop setup readings; led = led })
          low
          high
          up
          true
        ≡ finished
            (shaken intensity d readings low high)
            (some (wire (quake_message intensity d low high))))
      × (recv_message (some (wire (quake_message intensity d low high)))
          ≡ some (quake_message intensity d low high))
unfolding sense send_message reconnect
sense-recv_message f intensity d led readings low high shaking h id number =
    let detected : (accelerometer_read (loop setup readings) low high).1 ≡ some true =
      accelerometer_read-loop readings low high ∙ felt (abs (axis low high)) shaking in
    (
      rw (detected, sense) refl,
      recv_message-wire (quake_message intensity d low high) (omega arith) refl,
    )

-- A measurement of a sensor goes its whole way. After any readings, on a connection that holds, a reading whose
-- axis has an absolute value from 16 to 19 makes the sensor write one message; the server
-- receives it and stores the intensity that the sensor measured, with the time, in the slot of
-- the sensor's client. The identification and the number of the message have 32 bits, the
-- intensity too; the slot of the client is within the well-formed list.
pub sense-process_sensor :
    (f : FloatOps) (intensity : ℤ → ℕ) (d : Device) (led : Bool) (readings : List (ℕ × ℕ))
    (low high : ℕ)
    → (s : SensorServer) (t : Socket) (ref i junk : ℕ) (time : ℤ)
    → (leb 16 (abs (axis low high)) && ltb (abs (axis low high)) 20) ≡ true
    → intensity (axis low high) < 2 ^ 32
    → d.comm.id < 2 ^ 32
    → d.comm.message_id < 2 ^ 32
    → IsValid s.sensors
    → (client_at s.pool ref).local_id ≡ pos i
    → i < max_size_sensors
    → i ≤ s.sensors.max_size
    → (after : Sensor) × (bytes : List ℕ) × (p : Packet) × (list : ListSensors) × (sense f intensity
          (record { device = d; station = loop setup readings; led = led })
          low
          high
          up
          true
        ≡ finished after (some bytes))
      × (recv_message (some bytes) ≡ some p)
      × (process_sensor ref time junk s t p
          ≡ some (record s { sensors = list }, t, plain_answer junk))
      × (measure_at list i
          ≡ some
              (record new_measurement { timestamp = time; intensity = intensity (axis low high) }))
sense-process_sensor f intensity d led readings low high s t ref i junk time shaking h id number
      valid slot lo hi =
    let p = quake_message intensity d low high in
    let (list, stored, kept) =
      process_sensor_stores ref i i junk time s t p valid slot lo hi refl in
    let (written, heard) =
      sense-recv_message f intensity d led readings low high shaking h id number in
    (
      shaken intensity d readings low high,
      wire p,
      p,
      list,
      written,
      heard,
      stored,
      kept ∙ rw (==_self i) refl,
    )

-- The alarm that reads the message sounds once, and leaves the rest of the stream.
abbrev pub Sounds : FloatOps → Alarm → List ℕ → ℕ × List ℕ → Type 0
Sounds f s rest message =
    Alarming.loop f s (message.1 ++ rest) up
    ≡ some (record s { led = true; tones = suc s.tones }, rest)

-- For a mean intensity of 32 bits, every message that `sendAlert` hands out makes an alarm that reads it
-- from its connection sound once, whatever follows it in the stream.
pub send_alert-Sounds :
    (f : FloatOps) (s : Alarm) (rest : List ℕ) (mean index : ℕ) (refs : List ℕ)
    → mean < 2 ^ 32
    → All (Sounds f s rest) (send_alert mean index refs).0
unfolding send_alert number
send_alert-Sounds f s rest mean index [] h = tt
send_alert-Sounds f s rest mean index (ref ∷ refs) h =
    let q = (number index (alert_packet mean)).0 in
    let sent = number-IsSent index (alert_packet mean) (omega arith) refl in
    (
      ap (λ b. Alarming.loop f s (b ++ rest) up) (to_bytes-packing index (alert_packet mean))
          ∙ loop-wire f s q rest sent,
      send_alert-Sounds f s rest mean (packing index (alert_packet mean)).1 refs h,
    )
