-- ===== src/Handshake/Tests.antt =====
-- Runs of the identification.
use mundosvirtuales_terremot.Base.{◌≡◌, refl, true, List, [], ◌∷◌, some, arith}
use mundosvirtuales_terremot.Security.{encrypt, decrypt}
use mundosvirtuales_terremot.Packet.{
  Packet, acknowledge_client, command_code, version_packet, to_bytes, packing, to_words, of_words,
  of_bytes, unpacking, number,
}
use mundosvirtuales_terremot.Client.{recv_message}
use mundosvirtuales_terremot.Registry.{PairClientData, new_pair}
use mundosvirtuales_terremot.Handshake.{Exchange, identify}
use mundosvirtuales_terremot.Handshake.Floats.{integer_floats}
use mundosvirtuales_terremot.Handshake.Laws.{Sound, identify-Sound}

-- The answer of a device with the identification 5.
abbrev answer : Packet
answer = record {
  header = record {
    version = version_packet;
    command = command_code acknowledge_client;
    flags = 0;
    id_device = 5;
    id_response = 1;
  };
  payload = 0;
}

abbrev exchange : Exchange
exchange = record {
  answer = some (to_bytes (packing 0 answer).0);
  renew_sent = true;
  confirmation = some [];
  junk_ack = 0;
  time = 0;
}

abbrev registers : List PairClientData
registers = new_pair ∷ []

known_device : (identify integer_floats registers exchange 0).valid ≡ true
unfolding identify recv_message unpacking of_bytes packing number to_bytes of_words to_words encrypt
    decrypt
known_device = refl

identify-Sound_example : Sound registers (identify integer_floats registers exchange 0)
identify-Sound_example =
    identify-Sound integer_floats registers exchange (omega arith) 0 known_device
