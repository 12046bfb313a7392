-- ===== src/Report/Visits.antt =====
-- Runs of a device that connects twice.
use mundosvirtuales_terremot.Base.{ℕ, true, [], ◌∷◌, some, none, replicate}
use mundosvirtuales_terremot.Base.Int.{pos, negsuc}
use mundosvirtuales_terremot.Registry.{RemoteClientData}
use mundosvirtuales_terremot.Handshake.{Exchange}
use mundosvirtuales_terremot.Handshake.Floats.{integer_floats}
use mundosvirtuales_terremot.SensorServer.Threads.{Run}
use mundosvirtuales_terremot.SensorServer.History.{begin, connected}
use mundosvirtuales_terremot.Device.{ServerComm, Device}
use mundosvirtuales_terremot.Report.Remembering.{Contact, renewing}

abbrev device : ℕ → RemoteClientData
device id = record { remote_id = pos id; create_timestamp = 0; lat = 0; lng = 0 }

abbrev first_run : Run
first_run = begin (some (device 5 ∷ [])) 0

abbrev fresh_device : Device
fresh_device = record {
  id_device = negsuc 0;
  eeprom = negsuc 0;
  comm = record { id = 0xffff_ffff; message_id = 0 };
}

abbrev new_comm : ServerComm
new_comm = record { id = 0xffff_ffff; message_id = 0 }

abbrev contact : Contact
contact = record {
  array = replicate 16 0;
  again = replicate 16 7;
  junk = 9;
  junk_ack = 8;
  time = 1000;
}

-- A client that does not answer, in between.
abbrev silent : Exchange
silent = record { answer = none; renew_sent = true; confirmation = none; junk_ack = 0; time = 1001 }

abbrev after_silence : Run
after_silence =
    connected integer_floats
      (connected integer_floats first_run
        (renewing integer_floats fresh_device first_run.server contact))
      silent

-- The server is started anew.
abbrev later : Run
later = begin (some after_silence.server.file) 7
