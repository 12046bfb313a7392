-- ===== src/Channel/Tests.antt =====
-- A message that goes over the channel.
use mundosvirtuales_terremot.Base.{
  ℕ, zero, suc, ◌≡◌, refl, true, List, [], ◌∷◌, some, arith, replicate, All,
}
use mundosvirtuales_terremot.Base.Int.{pos}
use mundosvirtuales_terremot.Packet.{Packet, alive, new_packet, number}
use mundosvirtuales_terremot.Client.Wire.{new_packet-IsPacket}
use mundosvirtuales_terremot.Tcp.{Socket, Dial, ready, took}
use mundosvirtuales_terremot.Tcp.Receive.{IsFlowing}
use mundosvirtuales_terremot.Channel.{Link, Op, send_packet, recv_packet, run}
use mundosvirtuales_terremot.Channel.Fifo.{Carries, Fits, replay, run-replay}
use mundosvirtuales_terremot.Channel.Progress.{Prompt, IsUp, run_completes}

abbrev socket : Socket
socket = record { handle = pos 5; was_connected = true; is_non_block = true }

abbrev dial : Dial
dial = record { new_handle = pos 6; connects = true }

abbrev link : Link
link = record { sender = socket; receiver = socket; index = 9; stream = [] }

abbrev message : Packet
message = new_packet 7 alive

abbrev numbered : Packet
numbered = (number 9 message).0

abbrev calls : List Op
calls = send_packet message dial (took 16) [] ∷ recv_packet dial (replicate 16 (ready 1)) ∷ []

flowing : (n : ℕ) → IsFlowing (replicate n (ready 1))
flowing zero = tt
flowing (suc n) = ((0, refl), flowing n)

calls-Fits : All Fits calls
calls-Fits = (new_packet-IsPacket 7 alive (omega arith), (tt, tt))

calls-Prompt : All Prompt calls
calls-Prompt = ((refl, omega arith), ((flowing 16, omega arith), tt))

replayed : replay calls 9 [] ≡ some (numbered ∷ [], (number 9 message).1, [])
unfolding replay
replayed = refl

run_completes_example : (m : Link) × (run calls link ≡ some (numbered ∷ [], m)) × IsUp m
run_completes_example =
    run_completes calls link [] (numbered ∷ []) [] (number 9 message).1 (refl, refl) calls-Fits
      calls-Prompt refl replayed

link_after : (m : Link) × (run calls link ≡ some (numbered ∷ [], m))
link_after =
    let (m, e, _) =
      run_completes calls link [] (numbered ∷ []) [] (number 9 message).1 (refl, refl) calls-Fits
        calls-Prompt refl replayed in
    (m, e)

run-replay_example :
    (left : List Packet) × (replay calls 9 [] ≡ some (numbered ∷ [], link_after.0.index, left))
    × Carries link_after.0.stream left
run-replay_example =
    run-replay calls link link_after.0 [] (numbered ∷ []) calls-Fits refl link_after.1
