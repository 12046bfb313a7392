-- ===== src/Device/Tests.antt =====
-- Runs of the device.
use mathlib.Core.List.{append-nil}
use mundosvirtuales_terremot.Base.{
  sym, ◌++◌, ◌+◌, ◌%◌, ◌^◌, drop, false, get_elem?, ◌&&◌, none, some, if◌then◌else◌, ltb, leb, ℕ,
  ◌≡◌, refl, true, List, [], ◌∷◌, arith, replicate,
}
use mundosvirtuales_terremot.Base.Int.{abs, pos, negsuc}
use mundosvirtuales_terremot.Registry.{PairClientData, new_pair}
use mundosvirtuales_terremot.Handshake.Floats.{integer_floats}
use mundosvirtuales_terremot.Security.{encrypt, decrypt}
use mundosvirtuales_terremot.Packet.{
  Packet, number, earthquake, acknowledge_client, new_packet, to_words, of_words, of_bytes,
  to_bytes,
}
use mundosvirtuales_terremot.Client
use mundosvirtuales_terremot.Handshake.{identify}
use mundosvirtuales_terremot.Device.Agreement.{good_line, received}
use mundosvirtuales_terremot.Device.ZeroId.{zero_id_disagreement}
use mundosvirtuales_terremot.Device.{
  Device, Line, decode, ack_server, receive_message_now, fill, send_message,
}
use mundosvirtuales_terremot.Device.Accelerometer.{
  Station, new_window, num_reading1, num_reading2, axis, setup, accelerometer_read, loop,
}
use mundosvirtuales_terremot.Device.Detection.{Forgetful, accelerometer_read-loop}
use mundosvirtuales_terremot.Packet.Laws.{wire}
use mundosvirtuales_terremot.Client.Wire.{new_packet-IsPacket}
use mundosvirtuales_terremot.Channel.Fifo.{number-IsSent}
use mundosvirtuales_terremot.Device.Life.{
  booted, setup_sensor, Pass, read_pass, Event, ticking, passing, live,
}
use mundosvirtuales_terremot.Device.Utterance.{Utters}
use mundosvirtuales_terremot.Device.Booted.{live_sensor-Utters}
use mundosvirtuales_terremot.Device.Connecting.{
  Round, up, unreachable, reachable, linked, dial_rounds, setup_connection,
}
use mundosvirtuales_terremot.Device.Ready.{
  IsReady, Settled, Announces, Answers, setup_connection-Settled, dial_rounds_again,
}
use mundosvirtuales_terremot.Device.Alarming.{Alarm, listen, earthquakes, listen-Carries}
use mundosvirtuales_terremot.Device.Sensing.{Sensor, read_from}
use mundosvirtuales_terremot.Device.Init.{start_measuring}
use mundosvirtuales_terremot.Device.Bus.{read_from_fits}
use mundosvirtuales_terremot.Device.Legacy.{word, average}
use mundosvirtuales_terremot.Device.Renewal.{delivered}

abbrev fresh_device : Device
fresh_device = record {
  id_device = negsuc 0;
  eeprom = negsuc 0;
  comm = record { id = 0xffff_ffff; message_id = 0 };
}

abbrev registers : List PairClientData
registers = new_pair ∷ []

abbrev array : List ℕ
array = replicate 16 0

accelerometer_read-loop_example :
    (accelerometer_read (loop setup ((0, 0) ∷ (255, 31) ∷ [])) 4 0).1 ≡ (
      if ltb (abs (axis 4 0)) 10
      then none
      else some (leb 16 (abs (axis 4 0)) && ltb (abs (axis 4 0)) 20))
accelerometer_read-loop_example = accelerometer_read-loop ((0, 0) ∷ (255, 31) ∷ []) 4 0

abbrev zero_device : Device
zero_device = record { id_device = pos 0; eeprom = pos 0; comm = record { id = 0; message_id = 0 } }

no_message : decode array ≡ none
unfolding decode of_bytes of_words to_words decrypt
no_message = refl

zero_id_disagreement_example :
    let first = delivered (Client.send_message 0 (new_packet 8 acknowledge_client)).0 in
    let out = ack_server integer_floats zero_device (good_line array array first [] 9) in
    let who =
      identify integer_floats registers
        (record {
          answer = get_elem? out.written 0;
          renew_sent = false;
          confirmation = none;
          junk_ack = 8;
          time = 0;
        })
        0 in
    (who.valid ≡ true)
    × (who.is_new ≡ false)
    × (who.remote_id ≡ pos 0)
    × (who.sent ≡ first ∷ [])
    × (out.acknowledged ≡ false)
zero_id_disagreement_example =
    zero_id_disagreement integer_floats registers zero_device array array 9 8 0 0 refl (omega arith)
      (omega arith) (omega arith) refl no_message

abbrev settled : Device
settled = record { id_device = pos 5; eeprom = pos 5; comm = record { id = 5; message_id = 3 } }

settled-IsReady : IsReady settled
settled-IsReady = record { valid = refl; stored = refl; carried = refl }

abbrev acknowledgment : Packet
acknowledgment = (number 4 (new_packet 9 acknowledge_client)).0

abbrev heard : Line
heard = good_line array array (wire acknowledgment) [] 9

abbrev rounds : List Round
rounds = unreachable ∷ reachable (good_line array array [] [] 9) ∷ []

heard-Answers : Answers heard
unfolding number
heard-Answers =
    (acknowledgment, received 4 9 acknowledge_client array (omega arith) refl, refl, refl)

setup_connection-Settled_example :
    let o =
      (setup_connection integer_floats
        (14 ∷ 170 ∷ [])
        (pos 5)
        settled.comm
        (rounds ++ reachable heard ∷ [])).1 in
    Settled o × Announces o
setup_connection-Settled_example =
    setup_connection-Settled integer_floats (14 ∷ 170 ∷ []) (pos 5) settled.comm
      (rounds ++ reachable heard ∷ [])

dial_rounds_again_example :
    (e : Device) × (messages : List (List ℕ)) × (dial_rounds integer_floats settled []
        (rounds ++ reachable heard ∷ [])
      ≡ linked e messages)
    × IsReady e
dial_rounds_again_example =
    dial_rounds_again integer_floats settled [] rounds [] heard settled-IsReady heard-Answers

abbrev quake : Packet
quake = (number 4 (new_packet 9 earthquake)).0

abbrev silent : Alarm
silent = record { device = settled; led = false; tones = 2 }

listen-Carries_example :
    (t : Alarm) × (listen integer_floats 1 silent (wire quake) ≡ some (t, []))
    × (t.tones ≡ 2 + earthquakes (quake ∷ []))
    × (t.device ≡ settled)
listen-Carries_example = listen-Carries integer_floats silent (wire quake) (quake ∷ []) (
  number-IsSent 4 (new_packet 9 earthquake) (new_packet-IsPacket 9 earthquake (omega arith)) refl,
  ([], sym (append-nil (wire quake)), refl),
)

read_from_fits_example :
    read_from (replicate 5 0) 0 (replicate 6 1)
    ≡ (if leb 6 5 then some (replicate 6 1 ++ drop 6 (replicate 5 0)) else none)
read_from_fits_example = read_from_fits (replicate 5 0) (replicate 6 1)

abbrev new_station : Station
new_station = record { window1 = new_window num_reading1; window2 = new_window num_reading2 }

abbrev sensor : Sensor
sensor = record { device = settled; station = new_station; led = false }

new_station-Forgetful : Forgetful new_station
new_station-Forgetful = (
  record { room = omega arith; first = refl; sum = refl },
  record { room = omega arith; first = refl; sum = refl },
)

average_17 : average (word 16 0) (word 2 0) ≡ some 17
unfolding average
average_17 = refl

older_start : start_measuring ≡ (0x2d, 0) ∷ (0x2d, 16) ∷ (0x2d, 8) ∷ []
unfolding start_measuring
older_start = refl

-- A sensor after its start, with the message number counted on.
abbrev awake : Sensor
awake = record sensor { device = record settled { comm = record { id = 5; message_id = 4 } } }

starts :
    setup_sensor integer_floats
      (14 ∷ 173 ∷ [])
      (pos 5)
      settled.comm
      (reachable heard ∷ [])
      0
      (0 ∷ [])
      false
    ≡ booted awake ((0x10, 0xb6) ∷ (0x0d, 0x90) ∷ (0x35, 4) ∷ []) 60000
unfolding setup_sensor ack_server receive_message_now decode of_words decrypt to_words of_bytes fill
    to_bytes encrypt number send_message
starts = refl

-- A sign of life, a shake, and a sign of life that is not sent.
abbrev events : List (Event Pass)
events =
    ticking 7 true
    ∷ passing (record { low = 64; high = 255; upkeep = up; is_connected = true })
    ∷ ticking 7 false
    ∷ []

live_sensor-Utters_example :
    IsReady awake.device
    × Utters (pos 5) (live (read_pass integer_floats (λ z. abs z % 2 ^ 32)) awake [] events)
live_sensor-Utters_example =
    live_sensor-Utters integer_floats (14 ∷ 173 ∷ []) (pos 5) settled.comm (reachable heard ∷ [])
      false (omega arith) (λ z. abs z % 2 ^ 32) 0 (0 ∷ []) awake
      ((0x10, 0xb6) ∷ (0x0d, 0x90) ∷ (0x35, 4) ∷ []) 60000 events (λ z. omega arith) starts
      (omega arith, (tt, (omega arith, tt)))
