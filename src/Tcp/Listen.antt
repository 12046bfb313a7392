-- ===== src/Tcp/Listen.antt =====
-- src/utils/network/TcpComm.h and TcpComm.cpp: SocketServerTCP, with the answers of the system.
use mundosvirtuales_terremot.Base.{
  ◌≡◌, refl, ◌⊎◌, inl, inr, Bool, true, false, not, if◌then◌else◌, Bool-cases,
}
use mundosvirtuales_terremot.Base.Int.{ℤ, pos, ltb_ℤ}
use mundosvirtuales_terremot.Tcp.{Socket, connected, close_socket}

-- The answers of `socket`, and whether `bind` and `listen` return a negative number.
pub record Answers : Type 0 where
  pub new_handle : ℤ
  pub bind_fails : Bool
  pub listen_fails : Bool

-- The end of the constructor: an object, or an ExceptionNetwork.
pub data Opened : Type 0 where
  opened : Socket → Opened
  problem_binding problem_listening : Opened

-- `setBlock`
abbrev pub set_block : Bool → Socket → Socket
set_block is_block s = record s { is_non_block = not is_block }

abbrev pub bind_socket : Answers → Bool
bind_socket a = a.bind_fails

abbrev pub listen_socket : Answers → Bool
listen_socket a = a.listen_fails

-- `SocketTCP()` with the handle that `socket` returned.
abbrev pub fresh_socket : Answers → Socket
fresh_socket a = record { handle = a.new_handle; was_connected = false; is_non_block = false }

-- `SocketServerTCP(int port)`
unfoldable pub open_server : Answers → Opened
open_server a =
    if ltb_ℤ (pos 0) a.new_handle
    then (if bind_socket a
        then problem_binding
        else if listen_socket a
        then problem_listening
        else opened (set_block true (fresh_socket a)))
    else opened (fresh_socket a)

-- `~SocketServerTCP`
abbrev pub close_server : Socket → Socket
close_server s = close_socket s

-- A server socket is connected exactly when the system gave a handle, and then `bind` and `listen`
-- have succeeded; their failures are the two exceptions. When the system gives no handle, the
-- constructor reports nothing: the object is there, and not connected.
pub open_server_cases :
    (a : Answers)
    → ((open_server a ≡ opened (fresh_socket a))
        × (connected (fresh_socket a) ≡ ltb_ℤ (pos 0) a.new_handle)
        × ((ltb_ℤ (pos 0) a.new_handle ≡ false)
            ⊎ ((a.bind_fails ≡ false) × (a.listen_fails ≡ false))))
      ⊎ ((open_server a ≡ problem_binding)
          × (ltb_ℤ (pos 0) a.new_handle ≡ true)
          × (a.bind_fails ≡ true))
      ⊎ ((open_server a ≡ problem_listening)
          × (ltb_ℤ (pos 0) a.new_handle ≡ true)
          × (a.bind_fails ≡ false)
          × (a.listen_fails ≡ true))
unfolding open_server
open_server_cases a = elim (Bool-cases (ltb_ℤ (pos 0) a.new_handle)) [
  | inr e ↦ rw e (inl (refl, refl, inl refl))
  | inl e ↦ elim (Bool-cases a.bind_fails) [
    | inl b ↦ rw (e, b) (inr (inl (refl, refl, refl)))
    | inr b ↦ elim (Bool-cases a.listen_fails) [
      | inl l ↦ rw (e, b, l) (inr (inr (refl, refl, refl, refl)))
      | inr l ↦ rw (e, b, l) (inl (refl, refl, inr (refl, refl)))
    ]
  ]
]
