-- ===== src/Server.antt =====
-- src/utils/network/ServerTCP.h and ServerTCP.cpp: the connected clients of a server.
-- A client object is a cell of the store `clients`, and a shared pointer to it is its index.
pub mod Laws
pub mod Session
pub mod Accept
pub mod Running
mod Tests
use mundosvirtuales_terremot.Base.{
  ℕ, zero, suc, Bool, true, false, List, [], ◌∷◌, ◌++◌, Option, none, some, if◌then◌else◌, ltb,
  ◌==◌, ◌&&◌, length, get_or, set,
}
use mundosvirtuales_terremot.Base.Int.{ℤ, pos, negsuc, pos_part, neg_part}
use mundosvirtuales_terremot.Queue
use mundosvirtuales_terremot.Queue.{add, remove, remove_item}

-- m_clientID of ClientTCP, m_wasReplaced and m_stop; the session of ClientID is never read back.
pub record Client : Type 0 where
  pub local_id : ℤ
  pub remote_id : ℤ
  pub was_replaced : Bool
  pub stopped : Bool

-- ClientTCP(socket, ...) with ClientID().
abbrev pub new_client : Client
new_client = record {
  local_id = negsuc 0;
  remote_id = negsuc 0;
  was_replaced = false;
  stopped = false;
}

pub record Pool : Type 0 where
  pub clients : List Client
  pub queue : List ℕ

abbrev pub client_at : Pool → ℕ → Client
client_at p ref = get_or p.clients ref new_client

abbrev pub put_client : Pool → ℕ → Client → Pool
put_client p ref c = record p { clients = set p.clients ref c }

infix 50 ◌==ℤ◌
abbrev pub ◌==ℤ◌ : ℤ → ℤ → Bool
a ==ℤ b = pos_part a == pos_part b && neg_part a == neg_part b

-- `lpClient->stop()` of a detached client: the socket is closed and `m_stop` set.
abbrev pub stop_client : Pool → ℕ → Pool
stop_client p ref = put_client p ref (record (client_at p ref) { stopped = true })

abbrev pub set_replaced : Pool → ℕ → Pool
set_replaced p ref = put_client p ref (record (client_at p ref) { was_replaced = true })

abbrev pub set_client_id : Pool → ℕ → ℤ → ℤ → Pool
set_client_id p ref local remote =
    put_client p ref (record (client_at p ref) { local_id = local; remote_id = remote })

-- `ServerTCP::addClient`: the pointer to the new client.
unfoldable pub add_client : Pool → Pool × ℕ
unfolding add
add_client p =
    let ref = length p.clients in
    (record { clients = p.clients ++ new_client ∷ []; queue = add p.queue ref }, ref)

unfoldable pub exist_client : Pool → Bool
unfolding Queue.size
exist_client p = ltb 0 (Queue.size p.queue)

abbrev find_remote : List Client → ℤ → List ℕ → Option ℕ
find_remote clients remote [] = none
find_remote clients remote (ref ∷ refs) =
    if (get_or clients ref new_client).remote_id ==ℤ remote
    then some ref
    else find_remote clients remote refs

unfoldable pub exist_remote_client : Pool → ℤ → Bool
exist_remote_client p remote = elim (find_remote p.clients remote p.queue) [
  | none ↦ false
  | some ref ↦ true
]

-- `getLocalIDFromRemoteID`, with -1 for an unknown client.
unfoldable pub get_local_id_from_remote_id : Pool → ℤ → ℤ
get_local_id_from_remote_id p remote = elim (find_remote p.clients remote p.queue) [
  | none ↦ negsuc 0
  | some ref ↦ (client_at p ref).local_id
]

-- `close_all_clients` with the rounds that its loop may make.
unfoldable pub close_clients : ℕ → Pool → Pool
unfolding exist_client remove
close_clients zero p = p
close_clients (suc fuel) p = elim (remove p.queue) [
  | none ↦ p
  | some (ref, rest) ↦ close_clients fuel (stop_client (record p { queue = rest }) ref)
]

unfoldable pub close_all_clients : Pool → Pool
unfolding close_clients
close_all_clients p = close_clients (length p.queue) p

-- `remove_client_from_queue`; `none` is a thread that waits for a client to be added.
unfoldable pub remove_client_from_queue : Pool → ℕ → Option Pool
unfolding remove_item
remove_client_from_queue p ref = elim (remove_item (λ r. r == ref) p.queue) [
  | none ↦ none
  | some (found, rest) ↦ some (record p { queue = rest })
]
