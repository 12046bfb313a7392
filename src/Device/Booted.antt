-- ===== src/Device/Booted.antt =====
-- arduino/TerremotoDevice/TerremotoDeviceUpdated.ino and arduino/TerremotoDevice/TerremotoDevice.ino from the power on.
use mundosvirtuales_terremot.Base.{
  ℕ, ◌<◌, ◌^◌, ◌≡◌, refl, sym, subst, Bool, List, [], ◌∷◌, ◌++◌, Option, none, some, arith, All,
  inl, inr, Bool-cases, ◌==◌,
}
use mundosvirtuales_terremot.Base.Int.{ℤ}
use mundosvirtuales_terremot.Packet.{Packet, acknowledge_client, command_code}
use mundosvirtuales_terremot.Packet.Laws.{wire}
use mundosvirtuales_terremot.Handshake.{FloatOps}
use mundosvirtuales_terremot.Device.{
  ServerComm, Device, Line, is_valid_id, set_id, receive_message_now, take_identity, answer_server,
  ack_server, send_message, out_message,
}
use mundosvirtuales_terremot.Device.Connecting.{
  Round, unreachable, reachable, Dialling, linked, dialling, dial_rounds, connect_to_server,
  setup_connection,
}
use mundosvirtuales_terremot.Device.Ready.{IsReady, Settled, setup_connection-Settled}
use mundosvirtuales_terremot.Device.Speaking.{Speaking, send_message-counts}
use mundosvirtuales_terremot.Device.Init.{accelerometer_init, start_measuring}
use mundosvirtuales_terremot.Device.Sensing.{Sensor}
use mundosvirtuales_terremot.Device.Life.{
  Boot, waiting, overrun, booted, boot_sensor, setup_sensor, setup_legacy, Pass, read_pass,
  LegacyPass, read_legacy_pass, Event, live,
}
use mundosvirtuales_terremot.Device.Utterance.{
  Utters, Fits, sense-Tells, read_legacy-Tells, live-Utters,
}

-- The number of the next message has 32 bits.
abbrev Numbered : Device → Type 0
Numbered d = d.comm.message_id < 2 ^ 32

take_identity-Numbered :
    (f : FloatOps) (d : Device) (line : Line) (written : List (List ℕ)) (answer : Option Packet)
    → Numbered d
    → Numbered (take_identity f d line written answer).device
unfolding take_identity send_message
take_identity-Numbered f d line written none h = h
take_identity-Numbered f d line written (some m) h = ground arith

answer_server-Numbered :
    (f : FloatOps) (d : Device) (line : Line) (answer : Option Packet)
    → Numbered d
    → Numbered (answer_server f d line answer).device
unfolding answer_server send_message
answer_server-Numbered f d line none h = h
answer_server-Numbered f d line (some m) h =
    let answered = record (set_id d) {
      comm = (send_message (set_id d).comm acknowledge_client none line.junk line.connected).0;
    } in
    let counts : Numbered answered =
      subst (λ c. c.message_id < 2 ^ 32)
        (sym (send_message-counts (set_id d).comm acknowledge_client none line.junk line.connected))
        (omega arith) in
    elim (Bool-cases (m.header.command == command_code acknowledge_client)) [
      | inr c ↦ rw (c, answer_server) h
      | inl c ↦ elim (Bool-cases line.connected) [
        | inr k ↦ rw (c, k, answer_server) counts
        | inl k ↦ elim (Bool-cases (is_valid_id d.id_device)) [
          | inl v ↦ rw (c, k, v, answer_server) counts
          | inr v ↦
              rw (c, k, v, answer_server)
                (take_identity-Numbered f answered line
                  (wire (out_message (set_id d).comm acknowledge_client none line.junk) ∷ [])
                  (receive_message_now line.array_again line.second) counts)
        ]
      ]
    ]

abbrev NumberedEnd : Dialling → Type 0
NumberedEnd (linked d written) = Numbered d
NumberedEnd (dialling d written) = Numbered d

dial_rounds-Numbered :
    (f : FloatOps) (d : Device) (written : List (List ℕ)) (rounds : List Round)
    → Numbered d
    → NumberedEnd (dial_rounds f d written rounds)
unfolding dial_rounds ack_server
dial_rounds-Numbered f d written [] h = h
dial_rounds-Numbered f d written (unreachable ∷ rounds) h =
    dial_rounds-Numbered f d written rounds h
dial_rounds-Numbered f d written (reachable line ∷ rounds) h =
    let out = ack_server f d line in
    let k : Numbered out.device =
      answer_server-Numbered f d line (receive_message_now line.array line.first) h in
    elim (Bool-cases out.acknowledged) [
      | inl a ↦ rw (a, dial_rounds) k
      | inr a ↦
          rw (a, dial_rounds) (dial_rounds-Numbered f out.device (written ++ out.written) rounds k)
    ]

-- A sketch that has ended `setup` speaks under its identification.
abbrev SpeakingBoot : Boot → Type 0
SpeakingBoot (booted s bus period) = Speaking s.device.id_device s.device
SpeakingBoot (waiting d) = Unit
SpeakingBoot overrun = Unit

boot_sensor-Speaking :
    (led : Bool) (bus : Option (List (ℕ × ℕ))) (o : Dialling)
    → Settled o
    → NumberedEnd o
    → SpeakingBoot (boot_sensor led bus o)
boot_sensor-Speaking led none (linked d written) r h = tt
boot_sensor-Speaking led (some bus) (linked d written) r h = record {
  ready = r;
  same = refl;
  number = h;
}
boot_sensor-Speaking led bus (dialling d written) r h = tt

module _ (f : FloatOps) (prefix : List ℕ) (eeprom : ℤ) (comm : ServerComm) (rounds : List Round)
    (led : Bool) (number : comm.message_id < 2 ^ 32) where
  setup_sensor-Speaking :
      (temp : ℕ) (delivered : List ℕ)
      → SpeakingBoot (setup_sensor f prefix eeprom comm rounds temp delivered led)
  unfolding setup_sensor setup_connection connect_to_server
  setup_sensor-Speaking temp delivered =
      boot_sensor-Speaking led (accelerometer_init temp delivered)
        (setup_connection f prefix eeprom comm rounds).1
        (setup_connection-Settled f prefix eeprom comm rounds).0
        (dial_rounds-Numbered f (record { id_device = eeprom; eeprom = eeprom; comm = comm }) []
          rounds number)

  setup_legacy-Speaking : SpeakingBoot (setup_legacy f prefix eeprom comm rounds led)
  unfolding setup_legacy setup_connection connect_to_server
  setup_legacy-Speaking =
      boot_sensor-Speaking led (some start_measuring)
        (setup_connection f prefix eeprom comm rounds).1
        (setup_connection-Settled f prefix eeprom comm rounds).0
        (dial_rounds-Numbered f (record { id_device = eeprom; eeprom = eeprom; comm = comm }) []
          rounds number)

  -- From the power on. Whatever identification the EEPROM holds and whatever the network does, a sensor whose `setup` has ended
  -- has a valid identification that is in the EEPROM. From then on, through all passes, reconnections and calls of `alive`, it
  -- keeps that identification, and the server receives every message that `alive` and the passes write as a valid sign of life or
  -- earthquake of that identification. The intensities, the first message number and what is read for the
  -- payload of `alive` have 32 bits.
  pub live_sensor-Utters :
      (intensity : ℤ → ℕ) (temp : ℕ) (delivered : List ℕ) (s : Sensor) (bus : List (ℕ × ℕ))
      (period : ℕ)
      → (events : List (Event Pass)) → ((z : ℤ) → intensity z < 2 ^ 32)
      → setup_sensor f prefix eeprom comm rounds temp delivered led ≡ booted s bus period
      → All Fits events
      → IsReady s.device × Utters s.device.id_device (live (read_pass f intensity) s [] events)
  live_sensor-Utters intensity temp delivered s bus period events small e fits =
      let t = subst SpeakingBoot e (setup_sensor-Speaking temp delivered) in
      (
        t.ready,
        live-Utters s.device.id_device (read_pass f intensity)
            (λ u p. sense-Tells f intensity s.device.id_device u p small) s [] events t tt fits,
      )

  -- The same for the older sketch, whose payload is a ratio.
  pub live_legacy-Utters :
      (s : Sensor) (bus : List (ℕ × ℕ)) (period : ℕ) (events : List (Event LegacyPass))
      → setup_legacy f prefix eeprom comm rounds led ≡ booted s bus period
      → All Fits events
      → IsReady s.device × Utters s.device.id_device (live (read_legacy_pass f) s [] events)
  live_legacy-Utters s bus period events e fits =
      let t = subst SpeakingBoot e setup_legacy-Speaking in
      (
        t.ready,
        live-Utters s.device.id_device (read_legacy_pass f) (read_legacy-Tells f s.device.id_device)
            s [] events t tt fits,
      )
