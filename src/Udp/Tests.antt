-- ===== src/Udp/Tests.antt =====
-- Runs of the UDP socket.
use mundosvirtuales_terremot.Base.{ℕ, refl, ◌/◌, ◌%◌, ◌^◌, true, List, [], ◌∷◌, ◌++◌, some}
use mundosvirtuales_terremot.Base.Int.{pos}
use mundosvirtuales_terremot.Udp.{UdpComm, Datagram, Interface}
use mundosvirtuales_terremot.Udp.Host.{dot, wlan, decimals, IsDotted}

abbrev socket : UdpComm
socket = record { target = record { addr = 0; port = 0 }; settings = [] }

-- 224.0.0.1
abbrev group : ℕ
group = 0xe000_0001

abbrev wired : Interface
wired = record { name = 101 ∷ 116 ∷ 104 ∷ 48 ∷ []; multicast = true; address = some 0xc0a8_0107 }

abbrev wireless : Interface
wireless = record { name = wlan ++ 48 ∷ []; multicast = true; address = some 0xc0a8_01fe }

abbrev datagram : Datagram
datagram = record { result = pos 16; sender = 0xc0a8_01fe }

abbrev dotted : ℕ → List ℕ
dotted a =
    decimals (a / 2 ^ 24 % 2 ^ 8)
    ++ dot ∷ decimals (a / 2 ^ 16 % 2 ^ 8)
    ++ dot ∷ decimals (a / 2 ^ 8 % 2 ^ 8)
    ++ dot ∷ decimals (a % 2 ^ 8)

dotted-IsDotted : IsDotted dotted
dotted-IsDotted a = (
  decimals (a / 2 ^ 24 % 2 ^ 8)
      ++ dot ∷ decimals (a / 2 ^ 16 % 2 ^ 8)
      ++ dot ∷ decimals (a / 2 ^ 8 % 2 ^ 8),
  refl,
)
