-- ===== src/Client/Tests.antt =====
-- Runs of a client's thread.
use mundosvirtuales_terremot.Base.{ℕ, false, List, [], ◌∷◌, none, some}
use mundosvirtuales_terremot.Packet.{Packet, alive, new_packet}
use mundosvirtuales_terremot.Client.{Reply, Thread, Turn}

-- Counts the packets and answers each with an alive packet.
abbrev answer_alive : ℕ → Packet → Reply ℕ
answer_alive n p = record { state = n; response = some (new_packet 0 alive) }

abbrev thread : Thread ℕ
thread = record { state = 0; index = 0; count_error = 0; stopped = false; output = [] }

abbrev silence : Turn
silence = record { stop_request = false; message = none }

abbrev turns : List Turn
turns = silence ∷ silence ∷ silence ∷ silence ∷ []
