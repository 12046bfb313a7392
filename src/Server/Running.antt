-- ===== src/Server/Running.antt =====
-- src/utils/network/ServerTCP.cpp: the server from its constructor to its destructor, with the whole of `run`. The loop is that
-- of Accept; an exception that leaves `run` leaves the function of a std::thread, and std::thread then
-- terminates the program.
use Prim.Native.String.{String}
use mundosvirtuales_terremot.Base.{Bool, true, List, Option, none, some, if◌then◌else◌}
use mundosvirtuales_terremot.Base.Int.{ℤ}
use mundosvirtuales_terremot.Exception.{Exception, network, exception_of}
use mundosvirtuales_terremot.Tcp.{Socket}
use mundosvirtuales_terremot.Tcp.Listen.{
  Answers, opened, problem_binding, problem_listening, set_block, open_server,
}
use mundosvirtuales_terremot.Server.{Pool, close_all_clients}
use mundosvirtuales_terremot.Server.Accept
use mundosvirtuales_terremot.Server.Accept.{Pass, Serving, ended, serving, accept_loop}

-- m_lpTcpServer, which is `none` until it has a value, whether m_lpServerResponse is not null, and the rest.
pub record Host (State : Type 0) : Type 0 where
  pub tcp_server : Option Socket
  pub has_response : Bool
  pub state : State

-- The thread has returned, goes on, or has terminated the program.
pub data Running (State : Type 0) : Type 0 where
  returned : Host State → Running State
  going_on : Host State → Running State
  terminated : Exception → Running State

-- The exceptions of the constructor of SocketServerTCP.
abbrev pub problem : String → Exception
problem msg = exception_of network msg

module _ {State : Type 0} where
  -- The constructor.
  abbrev pub new_host : Bool → State → Host State
  new_host has_response state = record {
    tcp_server = none;
    has_response = has_response;
    state = state;
  }

  abbrev pub after_loop : Host State → Serving State → Running State
  after_loop h (ended s) = returned (record h { state = s })
  after_loop h (serving s) = going_on (record h { state = s })

  -- What follows `new SocketServerTCP`.
  abbrev pub host_loop :
      (State → Pool) → (State → ℤ → State) → Host State → Socket → List (Pass State) → Running State
  host_loop pool add_client h socket ps =
      after_loop (record h { tcp_server = some (set_block true socket) })
        (accept_loop pool add_client h.state ps)

  -- `run`, where `addClient` and the start of a client's thread do not throw.
  unfoldable pub run_host :
      (State → Pool)
      → (State → ℤ → State)
      → Host State
      → Answers
      → List (Pass State)
      → Running State
  unfolding open_server accept_loop
  run_host pool add_client h a ps =
      if h.has_response
      then elim (open_server a) [
        | opened socket ↦ host_loop pool add_client h socket ps
        | problem_binding ↦ terminated (problem "Problem Binding")
        | problem_listening ↦ terminated (problem "Problem Listening")
      ]
      else returned h

-- The destructor up to the join: the clients and m_stop; `none` is a call through a pointer without a value.
unfoldable pub destroy_host : Host Pool → Option (Pool × Bool)
unfolding Accept.stop close_all_clients
destroy_host h = elim h.tcp_server [
  | none ↦ none
  | some socket ↦ some (Accept.stop (close_all_clients h.state))
]
