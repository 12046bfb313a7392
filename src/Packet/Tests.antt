-- ===== src/Packet/Tests.antt =====
-- Runs of the packets' coding.
use mundosvirtuales_terremot.Base.{◌≡◌, arith}
use mundosvirtuales_terremot.Packet.{
  Packet, IsPacket, earthquake, new_packet, number, packing, unpacking,
}
use mundosvirtuales_terremot.Packet.Laws.{unpacking-packing}

abbrev quake : Packet
quake = new_packet 42 earthquake

quake-IsPacket : IsPacket quake
quake-IsPacket = omega arith

unpacking-packing_example : unpacking (packing 7 quake).0 ≡ (number 7 quake).0
unpacking-packing_example = unpacking-packing 7 quake quake-IsPacket
