-- ===== src/Tcp.antt =====
-- src/utils/network/TcpComm.h and TcpComm.cpp, the build without WIN32 and MACOSX: the client socket.
-- The operating system is the script of its answers, one for each pass of a loop; a script that
-- ends while a loop still runs is a call that has not returned. A successful `recv` or `send`
-- leaves `errno` at the zero it was reset to.
pub mod Receive
pub mod Send
pub mod Connection
pub mod Peek
pub mod Listen
mod Tests
use Prim.Native.Nat.{min}
use mundosvirtuales_terremot.Base.{
  ℕ, ◌+◌, ◌-◌, Bool, true, false, not, ◌&&◌, List, [], ◌∷◌, ◌++◌, if◌then◌else◌, ltb, ◌==◌, length,
  take, drop,
}
use mundosvirtuales_terremot.Base.Int.{ℤ, pos, ltb_ℤ}

-- The handle, whether a connection was ever made through it, and the blocking mode.
pub record Socket : Type 0 where
  pub handle : ℤ
  pub was_connected : Bool
  pub is_non_block : Bool

abbrev pub connected : Socket → Bool
connected s = ltb_ℤ (pos 0) s.handle

abbrev pub close_socket : Socket → Socket
close_socket s = record s { handle = pos 0 }

-- The answers of `socket` and of `connect`.
pub record Dial : Type 0 where
  pub new_handle : ℤ
  pub connects : Bool

unfoldable pub check_connection : Socket → Dial → Socket × Bool
check_connection s d =
    if connected s
    then (s, true)
    else let tried =
        if s.was_connected
        then s
        else if d.connects
        then record s { handle = d.new_handle }
        else close_socket (record s { handle = d.new_handle }) in
      if connected tried then (record tried { was_connected = true }, true) else (tried, false)

-- The constructor for a connection that the server accepted. `m_isNonBlock` is false from the base.
unfoldable pub accept_socket : ℤ → Dial → Socket
unfolding check_connection
accept_socket handle d =
    (check_connection (record { handle = handle; was_connected = false; is_non_block = false }) d).0

-- The constructor for a connection to a server. The address is not modelled.
unfoldable pub dial_socket : Dial → Socket
unfolding check_connection
dial_socket d =
    (check_connection (record { handle = pos 0; was_connected = false; is_non_block = true }) d).0

-- What `recv` finds: at least one byte, of which so many are ready; the end of the stream; nothing
-- yet, with whether the `select` that follows fails; or another error.
pub data Arrival : Type 0 where
  ready : ℕ → Arrival
  shutdown : Arrival
  unready : Bool → Arrival
  broken : Arrival

-- The end of `receive`: the filled buffer and what is left of the stream, a closed socket, or a
-- wait for more answers.
pub data Receipt : Type 0 where
  received : List ℕ → List ℕ → Receipt
  dropped : Receipt
  receiving : Receipt

-- The `while` loop of `receive` with the bytes stored so far and the stream that arrives.
unfoldable pub receive_loop : ℕ → List ℕ → List ℕ → List Arrival → Receipt
receive_loop size buffer stream [] =
    if ltb (length buffer) size then receiving else received buffer stream
receive_loop size buffer stream (ready k ∷ script) =
    let got = min (min k (size - length buffer)) (length stream) in
    let more = receive_loop size (buffer ++ take got stream) (drop got stream) script in
    if ltb (length buffer) size
    then (if got == 0 then dropped else more)
    else received buffer stream
receive_loop size buffer stream (shutdown ∷ script) =
    if ltb (length buffer) size then dropped else received buffer stream
receive_loop size buffer stream (unready fails ∷ script) =
    let more = receive_loop size buffer stream script in
    if ltb (length buffer) size then (if fails then dropped else more) else received buffer stream
receive_loop size buffer stream (broken ∷ script) =
    if ltb (length buffer) size then dropped else received buffer stream

abbrev pub close_after_receive : Socket → Receipt → Socket × Receipt
close_after_receive t (received b rest) = (t, received b rest)
close_after_receive t dropped = (close_socket t, dropped)
close_after_receive t receiving = (t, receiving)

-- `receive` in its waiting form: the socket after the call.
unfoldable pub receive : Socket → Dial → ℕ → List ℕ → List Arrival → Socket × Receipt
unfolding receive_loop check_connection
receive s d size stream script =
    let (t, usable) = check_connection s d in
    if usable then close_after_receive t (receive_loop size [] stream script) else (t, dropped)

-- What `send` answers: so many bytes taken, the buffers are full, or another error; with whether
-- the `select` before it fails.
pub data Departure : Type 0 where
  took : ℕ → Departure
  full : Departure
  failed : Departure

pub record Attempt : Type 0 where
  pub select_fails : Bool
  pub departure : Departure

-- The end of `send`: all bytes handed over, the socket closed, or a wait; with the bytes written.
pub data Dispatch : Type 0 where
  sent : List ℕ → Dispatch
  cut : List ℕ → Dispatch
  sending : List ℕ → Dispatch

-- errno after a call: 0, EWOULDBLOCK or EINPROGRESS, or anything else.
pub data Errno : Type 0 where
  clear again other : Errno

abbrev pub is_clear : Errno → Bool
is_clear clear = true
is_clear again = false
is_clear other = false

abbrev pub may_retry : Errno → Bool
may_retry clear = true
may_retry again = true
may_retry other = false

-- `if(ERRNO == 0 && sent == size)` with `n` bytes of the buffer written.
abbrev pub finish_send : List ℕ → ℕ → Errno → Dispatch
finish_send buffer n errno =
    if is_clear errno && n == length buffer then sent (take n buffer) else cut (take n buffer)

-- `sent` and `errno` after one more `::send`; a negative answer adds nothing.
abbrev pub count_after : List ℕ → ℕ → Departure → ℕ
count_after buffer n (took k) = n + min k (length buffer - n)
count_after buffer n full = n
count_after buffer n failed = n

abbrev pub errno_after : Departure → Errno
errno_after (took k) = clear
errno_after full = again
errno_after failed = other

-- The `while` loop of `send` and the test after it.
unfoldable pub send_loop : List ℕ → ℕ → Errno → List Attempt → Dispatch
send_loop buffer n errno [] =
    if ltb n (length buffer) && may_retry errno
    then sending (take n buffer)
    else finish_send buffer n errno
send_loop buffer n errno (a ∷ script) =
    let after_select =
      send_loop buffer (count_after buffer n a.departure) (errno_after a.departure) script in
    if ltb n (length buffer) && may_retry errno
    then (if a.select_fails then finish_send buffer n other else after_select)
    else finish_send buffer n errno

-- The first call of `::send`, the loop if it took anything, and the test.
unfoldable pub send_bytes : List ℕ → Departure → List Attempt → Dispatch
unfolding send_loop
send_bytes buffer (took k) script =
    let n = min k (length buffer) in
    if ltb 0 n then send_loop buffer n clear script else finish_send buffer n clear
send_bytes buffer full script = finish_send buffer 0 again
send_bytes buffer failed script = finish_send buffer 0 other

abbrev pub close_after_send : Socket → Dispatch → Socket × Dispatch
close_after_send t (sent b) = (t, sent b)
close_after_send t (cut b) = (close_socket t, cut b)
close_after_send t (sending b) = (t, sending b)

-- `send`: the socket after the call.
unfoldable pub send : Socket → Dial → List ℕ → Departure → List Attempt → Socket × Dispatch
unfolding send_bytes check_connection
send s d buffer first script =
    let (t, usable) = check_connection s d in
    if usable then close_after_send t (send_bytes buffer first script) else (t, cut [])
