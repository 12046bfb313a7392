-- ===== src/Channel.antt =====
-- src/utils/network/ClientTCP.cpp over src/utils/network/TcpComm.cpp: the messages of one end, as the
-- other end receives them. The stream between the sockets holds what was written and not yet read.
pub mod Fifo
pub mod Progress
mod Tests
use mundosvirtuales_terremot.Base.{ℕ, List, [], ◌∷◌, ◌++◌, Option, none, some}
use mundosvirtuales_terremot.Packet.{Packet}
use mundosvirtuales_terremot.Client
use mundosvirtuales_terremot.Client.{recv_message}
use mundosvirtuales_terremot.Tcp.{
  Socket, Dial, Arrival, Receipt, received, dropped, receiving, receive, Departure, Attempt,
  Dispatch, sent, cut, sending, send,
}

-- The socket of the sender with its request index, that of the receiver, and the stream between them.
pub record Link : Type 0 where
  pub sender : Socket
  pub receiver : Socket
  pub index : ℕ
  pub stream : List ℕ

-- A call of `sendMessage` or of `recvMessage` with the answers of the system.
pub data Op : Type 0 where
  send_packet : Packet → Dial → Departure → List Attempt → Op
  recv_packet : Dial → List Arrival → Op

-- The bytes of a dispatch that succeeded.
abbrev pub sent_bytes : Dispatch → Option (List ℕ)
sent_bytes (sent b) = some b
sent_bytes (cut b) = none
sent_bytes (sending b) = none

-- The buffer and the rest of the stream of a receipt that succeeded.
abbrev pub received_bytes : Receipt → Option (List ℕ × List ℕ)
received_bytes (received b rest) = some (b, rest)
received_bytes dropped = none
received_bytes receiving = none

-- `sendMessage(const PacketComm&)`; `none` is a call that does not return true.
unfoldable pub send_over : Link → Packet → Dial → Departure → List Attempt → Option Link
send_over l p d first script =
    let (bytes, index) = Client.send_message l.index p in
    elim bytes [
      | none ↦ none
      | some buffer ↦
          let (socket, dispatch) = send l.sender d buffer first script in
          elim (sent_bytes dispatch) [
            | none ↦ none
            | some b ↦ some (record l { sender = socket; index = index; stream = l.stream ++ b })
          ]
    ]

-- `recvMessage(PacketComm&)`; `none` is a call that does not return true.
unfoldable pub recv_over : Link → Dial → List Arrival → Option (Packet × Link)
recv_over l d script =
    let (socket, receipt) = receive l.receiver d 16 l.stream script in
    elim (received_bytes receipt) [
      | none ↦ none
      | some (b, rest) ↦ elim (recv_message (some b)) [
        | none ↦ none
        | some p ↦ some (p, record l { receiver = socket; stream = rest })
      ]
    ]

-- The packets that a sequence of calls receives, and the link after it; `none` if a call fails.
unfoldable pub run : List Op → Link → Option (List Packet × Link)
unfolding send_over recv_over
run [] l = some ([], l)
run (send_packet p d first script ∷ ops) l = elim (send_over l p d first script) [
  | none ↦ none
  | some m ↦ run ops m
]
run (recv_packet d script ∷ ops) l = elim (recv_over l d script) [
  | none ↦ none
  | some (p, m) ↦ elim (run ops m) [ none ↦ none | some (ps, n) ↦ some (p ∷ ps, n) ]
]
