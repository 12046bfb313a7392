-- ===== src/Device/Life.antt =====
-- arduino/TerremotoDevice/TerremotoDeviceUpdated.ino and arduino/TerremotoDevice/TerremotoDevice.ino as whole sketches: `setup`, and
-- then `loop` over and over, with the timer that calls `alive`. The interrupt falls between two passes. The sixth byte
-- of a reading of the newer sketch, which `readFrom` writes past `result`, is left out: Device/Bus is about it.
use mundosvirtuales_terremot.Base.{ℕ, Bool, List, [], ◌∷◌, ◌++◌, Option, none, some}
use mundosvirtuales_terremot.Base.Int.{ℤ}
use mundosvirtuales_terremot.Handshake.{FloatOps}
use mundosvirtuales_terremot.Device.{ServerComm, Device}
use mundosvirtuales_terremot.Device.Accelerometer
use mundosvirtuales_terremot.Device.Connecting.{
  Round, Dialling, linked, dialling, setup_connection, alive_message, Upkeep,
}
use mundosvirtuales_terremot.Device.Init.{accelerometer_init, start_measuring}
use mundosvirtuales_terremot.Device.Sensing.{
  Sensor, Reading, undefined, reconnecting, finished, sense,
}
use mundosvirtuales_terremot.Device.Legacy.{read_legacy}

-- The end of `setup`: still in `connectToServer`, a write past the end of `temp`, or the globals, the registers that
-- were written to the accelerometer and the period of the timer.
pub data Boot : Type 0 where
  waiting : Device → Boot
  overrun : Boot
  booted : Sensor → List (ℕ × ℕ) → ℕ → Boot

-- What follows the connection, with the accelerometer's start.
abbrev pub boot_sensor : Bool → Option (List (ℕ × ℕ)) → Dialling → Boot
boot_sensor led bus (dialling d written) = waiting d
boot_sensor led none (linked d written) = overrun
boot_sensor led (some bus) (linked d written) =
    booted (record { device = d; station = Accelerometer.setup; led = led }) bus 60000

-- `setup`
unfoldable pub setup_sensor :
    FloatOps → List ℕ → ℤ → ServerComm → List Round → ℕ → List ℕ → Bool → Boot
unfolding setup_connection accelerometer_init Accelerometer.setup
setup_sensor f prefix eeprom comm rounds temp delivered led =
    boot_sensor led (accelerometer_init temp delivered)
      (setup_connection f prefix eeprom comm rounds).1

-- `setup` of the older sketch.
unfoldable pub setup_legacy : FloatOps → List ℕ → ℤ → ServerComm → List Round → Bool → Boot
unfolding setup_connection start_measuring Accelerometer.setup
setup_legacy f prefix eeprom comm rounds led =
    boot_sensor led (some start_measuring) (setup_connection f prefix eeprom comm rounds).1

-- What a pass of `loop` meets: the two bytes that are used, the connection, and what `SendMessage` finds.
pub record Pass : Type 0 where
  pub low : ℕ
  pub high : ℕ
  pub upkeep : Upkeep
  pub is_connected : Bool

-- The same for the older sketch, which uses six bytes.
pub record LegacyPass : Type 0 where
  pub buff : List ℕ
  pub upkeep : Upkeep
  pub is_connected : Bool

abbrev pub read_pass : FloatOps → (ℤ → ℕ) → Sensor → Pass → Reading
read_pass f intensity s p = sense f intensity s p.low p.high p.upkeep p.is_connected

abbrev pub read_legacy_pass : FloatOps → Sensor → LegacyPass → Reading
read_legacy_pass f s p = read_legacy f s p.buff p.upkeep p.is_connected

-- A call of `alive`, with what a null pointer reads and what `SendMessage` finds, or a pass.
pub data Event (P : Type 0) : Type 0 where
  ticking : ℕ → Bool → Event P
  passing : P → Event P

-- The sketch goes on, is in `connectToServer`, or has divided by zero; with the messages that `alive` and the passes have
-- written, without those of a connection.
pub data Life : Type 0 where
  going : Sensor → List (List ℕ) → Life
  dialing : List (List ℕ) → Life
  failed : List (List ℕ) → Life

abbrev pub message : Option (List ℕ) → List (List ℕ)
message none = []
message (some bytes) = bytes ∷ []

-- The life of a sketch after `setup`.
unfoldable pub live :
    {P : Type 0} → (Sensor → P → Reading) → Sensor → List (List ℕ) → List (Event P) → Life
unfolding alive_message
live read s written [] = going s written
live read s written (ticking junk is_connected ∷ events) =
    let (d, bytes) = alive_message s.device junk is_connected in
    live read (record s { device = d }) (written ++ message bytes) events
live read s written (passing p ∷ events) = elim (read s p) [
  | undefined ↦ failed written
  | reconnecting ↦ dialing written
  | finished t bytes ↦ live read t (written ++ message bytes) events
]
