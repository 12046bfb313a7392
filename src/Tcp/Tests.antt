-- ===== src/Tcp/Tests.antt =====
-- Runs of the sockets.
use mundosvirtuales_terremot.Base.{ℕ, ◌≡◌, refl, true, false, List, [], ◌∷◌}
use mundosvirtuales_terremot.Base.Int.{pos}
use mundosvirtuales_terremot.Tcp.{
  Socket, Dial, Arrival, ready, unready, received, took, full, connected, check_connection,
  dial_socket, receive_loop, receive, send,
}
use mundosvirtuales_terremot.Tcp.Receive.{Exact, keeps_socket, receive-Exact}
use mundosvirtuales_terremot.Tcp.Send
use mundosvirtuales_terremot.Tcp.Send.{Written, send-Written}

abbrev socket : Socket
socket = record { handle = pos 5; was_connected = true; is_non_block = true }

abbrev answered : Dial
answered = record { new_handle = pos 6; connects = true }

abbrev stream : List ℕ
stream = 10 ∷ 11 ∷ 12 ∷ 13 ∷ 14 ∷ []

abbrev arrivals : List Arrival
arrivals = ready 2 ∷ ready 1 ∷ ready 9 ∷ []

receive_in_pieces :
    receive socket answered 4 stream (ready 2 ∷ unready false ∷ ready 9 ∷ [])
    ≡ (socket, received (10 ∷ 11 ∷ 12 ∷ 13 ∷ []) (14 ∷ []))
unfolding receive check_connection receive_loop
receive_in_pieces = refl

receive-Exact_example :
    let (t, receipt) = receive socket answered 4 stream arrivals in
    Exact 4 stream receipt × (connected t ≡ keeps_socket receipt)
receive-Exact_example = receive-Exact socket answered 4 stream arrivals

send-Written_example :
    let (t, dispatch) = send socket answered stream (took 2) (
      record { select_fails = false; departure = full }
      ∷ record { select_fails = false; departure = took 9 }
      ∷ []) in
    Written stream dispatch × (connected t ≡ Send.keeps_socket dispatch)
send-Written_example = send-Written socket answered stream (took 2) (
    record { select_fails = false; departure = full }
    ∷ record { select_fails = false; departure = took 9 }
    ∷ [])

dialled : connected (dial_socket answered) ≡ true
unfolding dial_socket check_connection
dialled = refl
