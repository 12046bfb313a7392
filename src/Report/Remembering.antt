-- ===== src/Report/Remembering.antt =====
-- The whole program: a device that was given an identification and that connects again later.
use mundosvirtuales_terremot.Base.{ℕ, ◌<◌, ◌^◌, ◌≡◌, true, List, some, length, get_or}
use mundosvirtuales_terremot.Server
use mundosvirtuales_terremot.Registry.{new_pair}
use mundosvirtuales_terremot.Handshake.{FloatOps, Exchange}
use mundosvirtuales_terremot.SensorServer.{SensorServer, add_client}
use mundosvirtuales_terremot.SensorServer.Registered.{infos}
use mundosvirtuales_terremot.Device.{ServerComm, Device, Outcome}
use mundosvirtuales_terremot.Device.Renewal.{outcome, exchange}
use mundosvirtuales_terremot.Device.Returning.{answered, visit}

-- What the two ends of a connection meet: the arrays of the device's receives, what its null pointer reads, the payload
-- of the server's message that has no value, and the time.
pub record Contact : Type 0 where
  pub array : List ℕ
  pub again : List ℕ
  pub junk : ℕ
  pub junk_ack : ℕ
  pub time : ℕ

-- The arrays have sixteen bytes and the undefined values 32 bits.
pub record IsContact (c : Contact) : Type 0 where
  pub junk : c.junk < 2 ^ 32
  pub junk_ack : c.junk_ack < 2 ^ 32
  pub array : length c.array ≡ 16
  pub again : length c.again ≡ 16

module _ (f : FloatOps) (d : Device) (s : SensorServer) (c : Contact) where
  -- The device and the server after a connection that renews the identification.
  abbrev pub renewed : Outcome
  renewed = outcome f s.registers d c.array c.again c.junk c.junk_ack c.time s.index

  abbrev pub renewing : Exchange
  renewing = exchange f s.registers d c.array c.again c.junk c.junk_ack c.time s.index

  -- The same for a connection that does not.
  abbrev pub revisited : Outcome
  revisited = answered f s.registers d c.array c.again c.junk c.junk_ack c.time s.index

  abbrev pub revisiting : Exchange
  revisiting = visit f s.registers d c.array c.again c.junk c.junk_ack c.time s.index

-- The device after it was switched off and on, with a new `comm`: the EEPROM is all it keeps.
abbrev pub restarted : Device → ServerComm → Device
restarted d comm = record { id_device = d.eeprom; eeprom = d.eeprom; comm = comm }

-- The device `named` connects again, after it was switched off and on: both ends agree on its identification, and
-- a register of it gets the client.
abbrev pub Known : FloatOps → SensorServer → Device → ServerComm → Contact → Type 0
Known f t named comm b =
    let out = revisited f (restarted named comm) t b in
    let (u, ref) = add_client f t (revisiting f (restarted named comm) t b) in
    (out.acknowledged ≡ true)
    × (out.device.id_device ≡ named.id_device)
    × (out.device.eeprom ≡ named.id_device)
    × (u.file ≡ t.file)
    × (infos u.registers ≡ infos t.registers)
    × (ref ≡ some (Server.add_client t.pool).1)
    × (i : ℕ) × ((get_or u.registers i new_pair).info.remote_id ≡ named.id_device)
    × ((get_or u.registers i new_pair).client ≡ ref)
