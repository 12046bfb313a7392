-- ===== src/Report/Alert.antt =====
-- The whole program: from the earthquake that a sensor feels to the alarms that sound.
use mathlib.Core.Option.{some-injective}
use mundosvirtuales_terremot.Base.{
  ℕ, map, zero, suc, ◌+◌, ◌<◌, ◌≤◌, ◌^◌, ◌≡◌, refl, sym, ap, subst, ◌∙◌, Bool, true, ◌&&◌, inl, inr,
  List, [], ◌∷◌, Option, none, some, All, arith, leb, ltb, ◌==◌, ==_self, ==_iff, Bool-cases,
  get_or, get_elem?,
}
use mundosvirtuales_terremot.Base.Int.{ℤ, pos, abs, ltb_ℤ, ◌-ℤ◌}
use mundosvirtuales_terremot.Packet.{Packet}
use mundosvirtuales_terremot.Packet.Laws.{wire}
use mundosvirtuales_terremot.Sensors.{
  ListSensors, new_measurement, measure_at, append_measure, max_size_sensors,
}
use mundosvirtuales_terremot.Sensors.Laws.{IsValid, append_measure_stores, append_measure_total}
use mundosvirtuales_terremot.Tcp.{Socket}
use mundosvirtuales_terremot.Server.{client_at}
use mundosvirtuales_terremot.Client.{recv_message}
use mundosvirtuales_terremot.Handshake
use mundosvirtuales_terremot.SensorServer.{SensorServer, update_list_sensor}
use mundosvirtuales_terremot.Response.{process_sensor, plain_answer}
use mundosvirtuales_terremot.Device.{Device}
use mundosvirtuales_terremot.Device.Accelerometer.{axis, setup, loop}
use mundosvirtuales_terremot.Device.Connecting.{up}
use mundosvirtuales_terremot.Device.Alarming
use mundosvirtuales_terremot.Device.Sensing.{Sensor, finished, sense}
use mundosvirtuales_terremot.Alarm.{FloatOps, pass, send_alert}
use mundosvirtuales_terremot.Alarm.Watch.{pass-lt}
use mundosvirtuales_terremot.Alarm.Laws.{
  is_some, counts, count_from, pass_alerts, send_alert-Delivers,
}
use mundosvirtuales_terremot.Report.{
  quake_message, shaken, sense-recv_message, Sounds, send_alert-Sounds,
}

get_or-get_elem? :
    {A : Type 0} (xs : List A) (i : ℕ) (a d : A) → get_elem? xs i ≡ some a → get_or xs i d ≡ a
get_or-get_elem? [] i a d e = cc
get_or-get_elem? (x ∷ xs) zero a d e = some-injective _ _ e
get_or-get_elem? (x ∷ xs) (suc i) a d e = get_or-get_elem? xs i a d e

-- A slot that counts is counted.
count_from-counts :
    (g : FloatOps) (s : ListSensors) (time : ℤ) (left from j : ℕ)
    → from ≤ j
    → j < from + left
    → counts g s time j ≡ true
    → 0 < count_from g s time left from
count_from-counts g s time zero from j lo hi c = absurd (omega arith)
count_from-counts g s time (suc left) from j lo hi c = elim (Bool-cases (from == j)) [
  | inl e ↦
      let now : counts g s time from ≡ true =
        subst (λ k. counts g s time k ≡ true) (sym ((==_iff from j).0 e)) c in
      rw now (omega arith)
  | inr e ↦
      let later : 0 < count_from g s time left (from + 1) =
        count_from-counts g s time left (from + 1) j (ground arith) (omega arith) c in
      omega (arith, later)
]

is_some-some : (o : Option ℕ) → is_some o ≡ true → (m : ℕ) × (o ≡ some m)
is_some-some none e = cc
is_some-some (some m) e = (m, refl)

-- A list whose only active sensor has just measured: the next pass within five seconds sends an alert.
stored-pass :
    (g : FloatOps) (s : ListSensors) (i h : ℕ) (time now : ℤ)
    → IsValid s
    → i < max_size_sensors
    → i < s.max_size
    → s.active_sensors ≡ pos 1
    → g.above_half new_measurement.confidence ≡ true
    → ltb_ℤ (now -ℤ time) (pos 5000) ≡ true
    → (list : ListSensors) × (append_measure s
          (pos i)
          (record new_measurement { timestamp = time; intensity = h })
        ≡ some list)
      × ((mean : ℕ) × (pass g list now ≡ some mean))
unfolding measure_at
stored-pass g s i h time now v slot within one trusted young =
    let m = record new_measurement { timestamp = time; intensity = h } in
    let (list, stored, held) = append_measure_stores s i i m v slot (omega arith) in
    let (again, same, _, size, active, _) = append_measure_total s (pos i) m slot v in
    let equal : list ≡ again = some-injective _ _ (sym stored ∙ same) in
    let there : get_or list.queue i new_measurement ≡ m =
      get_or-get_elem? list.queue i m new_measurement (held ∙ rw (==_self i) refl) in
    let counted : counts g list now i ≡ true = rw (there, young, trusted) refl in
    let sizes : list.max_size ≡ s.max_size = ap (λ l. l.max_size) equal ∙ size in
    let some_count : 0 < count_from g list now list.max_size 0 =
      count_from-counts g list now list.max_size 0 i (omega arith) (omega arith) counted in
    let alerts : is_some (pass g list now) ≡ true =
      pass_alerts g list now 0 (ap (λ l. l.active_sensors) equal ∙ active ∙ one) ∙ ground arith in
    (list, stored, is_some-some (pass g list now) alerts)

-- The whole program at work. After any readings, on a connection that holds, a sensor whose axis has an
-- absolute value from 16 to 19 writes one message; the server receives and processes it for the sensor's client, whose slot
-- is within the well-formed list; the list counts one active sensor. A pass of the alarm request
-- less than five seconds later finds a mean intensity and sends one message to each alarm, which makes an
-- alarm that reads it sound once, whatever follows it in the stream. The identification, the number of the message, the intensities and the results of the
-- division of `float` have 32 bits, and the confidence of a new measurement is above one half.
pub sense-send_alert :
    (f : Handshake.FloatOps) (g : FloatOps) (intensity : ℤ → ℕ) (d : Device) (led : Bool)
    → (readings : List (ℕ × ℕ)) (low high : ℕ) (s : SensorServer) (t : Socket) (ref i junk : ℕ)
    → (time now : ℤ) (index : ℕ) (alarms : List ℕ) (alarm : Alarming.Alarm) (rest : List ℕ)
    → (leb 16 (abs (axis low high)) && ltb (abs (axis low high)) 20) ≡ true
    → intensity (axis low high) < 2 ^ 32
    → d.comm.id < 2 ^ 32
    → d.comm.message_id < 2 ^ 32
    → IsValid s.sensors
    → (client_at s.pool ref).local_id ≡ pos i
    → i < max_size_sensors
    → i < s.sensors.max_size
    → s.sensors.active_sensors ≡ pos 1
    → g.above_half new_measurement.confidence ≡ true
    → ((a n : ℕ) → g.over a n < 2 ^ 32)
    → ltb_ℤ (now -ℤ time) (pos 5000) ≡ true
    → (after : Sensor) × (bytes : List ℕ) × (p : Packet) × (u : SensorServer) × (mean : ℕ) × (sense
          f intensity
          (record { device = d; station = loop setup readings; led = led })
          low
          high
          up
          true
        ≡ finished after (some bytes))
      × (recv_message (some bytes) ≡ some p)
      × (process_sensor ref time junk s t p ≡ some (u, t, plain_answer junk))
      × (pass g u.sensors now ≡ some mean)
      × (map (λ m. m.0) (send_alert mean index alarms).0 ≡ alarms)
      × All (Sounds f alarm rest) (send_alert mean index alarms).0
unfolding process_sensor update_list_sensor
sense-send_alert f g intensity d led readings low high s t ref i junk time now index alarms alarm
      rest shaking h id number valid local slot within one trusted small young =
    let (written, heard) =
      sense-recv_message f intensity d led readings low high shaking h id number in
    let (list, stored, (mean, alert)) =
      stored-pass g s.sensors i (intensity (axis low high)) time now valid slot within one trusted
        young in
    (
      shaken intensity d readings low high,
      wire (quake_message intensity d low high),
      quake_message intensity d low high,
      record s { sensors = list },
      mean,
      written,
      heard,
      rw (local, stored) refl,
      alert,
      (send_alert-Delivers mean index alarms (pass-lt g list now mean small alert)).0,
      send_alert-Sounds f alarm rest mean index alarms (pass-lt g list now mean small alert),
    )
