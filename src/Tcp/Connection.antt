-- ===== src/Tcp/Connection.antt =====
-- Which sockets connect again after they were closed.
use mundosvirtuales_terremot.Base.{◌≡◌, true, false, ◌&&◌, arith}
use mundosvirtuales_terremot.Base.Int.{ℤ, pos, ltb_ℤ}
use mundosvirtuales_terremot.Tcp.{
  Dial, connected, close_socket, check_connection, accept_socket, dial_socket,
}

-- A socket to a server that connected once stays closed after it is closed: no later check
-- connects it again.
pub dial_socket_once :
    (d later : Dial)
    → connected (dial_socket d) ≡ true
    → check_connection (close_socket (dial_socket d)) later ≡ (close_socket (dial_socket d), false)
unfolding dial_socket check_connection
dial_socket_once d later h = ground arith

-- A socket that the server accepted forgets that it was connected: after it is closed, the next
-- check dials the client's address, and succeeds exactly when the client answers.
pub accept_socket_redials :
    (handle : ℤ) (d later : Dial)
    → ltb_ℤ (pos 0) handle ≡ true
    → (check_connection (close_socket (accept_socket handle d)) later).1
      ≡ (later.connects && ltb_ℤ (pos 0) later.new_handle)
unfolding accept_socket check_connection
accept_socket_redials handle d later h = ground arith
