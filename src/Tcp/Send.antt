-- ===== src/Tcp/Send.antt =====
-- `send` reports success exactly when every byte was handed over, in order.
use Prim.Native.Nat.{min}
use mundosvirtuales_terremot.Base.{
  ℕ, ◌≡◌, refl, inl, inr, ◌∙◌, sym, Bool, true, false, List, [], ◌∷◌, ◌++◌, arith, length, drop,
  take-append-drop, take_all, Bool-cases, ltb, ◌==◌, ◌&&◌,
}
use mundosvirtuales_terremot.Tcp.{
  Errno, clear, again, other, is_clear, may_retry, Departure, took, full, failed, Attempt, Dispatch,
  sent, cut, sending, Socket, Dial, connected, check_connection, close_after_send, count_after,
  errno_after, finish_send, send_loop, send_bytes, send,
}
use mundosvirtuales_terremot.Tcp.Receive.{check_connection-connected}

-- What was written: all of the buffer after a success, and a part from its start otherwise.
abbrev pub Written : List ℕ → Dispatch → Type 0
Written buffer (sent b) = b ≡ buffer
Written buffer (cut b) = (rest : List ℕ) × (b ++ rest ≡ buffer)
Written buffer (sending b) = (rest : List ℕ) × (b ++ rest ≡ buffer)

finish_send-Written :
    (buffer : List ℕ) (n : ℕ) (e : Errno) → Written buffer (finish_send buffer n e)
finish_send-Written buffer n e = elim (Bool-cases (is_clear e && n == length buffer)) [
  | inl h ↦ rw h (take_all n buffer (ground arith))
  | inr h ↦ rw h (drop n buffer, take-append-drop n buffer)
]

send_loop-Written :
    (buffer : List ℕ) (n : ℕ) (e : Errno) (script : List Attempt)
    → Written buffer (send_loop buffer n e script)
unfolding send_loop
send_loop-Written buffer n e [] = elim (Bool-cases (ltb n (length buffer) && may_retry e)) [
  | inl h ↦ rw h (drop n buffer, take-append-drop n buffer)
  | inr h ↦ rw h (finish_send-Written buffer n e)
]
send_loop-Written buffer n e (a ∷ script) =
    elim (Bool-cases (ltb n (length buffer) && may_retry e)) [
      | inl h ↦ rw h (elim (Bool-cases a.select_fails) [
        | inl f ↦ rw f (finish_send-Written buffer n other)
        | inr f ↦ rw f (
            send_loop-Written buffer (count_after buffer n a.departure) (errno_after a.departure)
              script)
      ])
      | inr h ↦ rw h (finish_send-Written buffer n e)
    ]

send_bytes-Written :
    (buffer : List ℕ) (first : Departure) (script : List Attempt)
    → Written buffer (send_bytes buffer first script)
unfolding send_bytes
send_bytes-Written buffer (took k) script = elim (Bool-cases (ltb 0 (min k (length buffer)))) [
  | inl h ↦ rw h (send_loop-Written buffer (min k (length buffer)) clear script)
  | inr h ↦ rw h (finish_send-Written buffer (min k (length buffer)) clear)
]
send_bytes-Written buffer full script = finish_send-Written buffer 0 again
send_bytes-Written buffer failed script = finish_send-Written buffer 0 other

-- A call that ends well, or has not ended, keeps the socket.
abbrev pub keeps_socket : Dispatch → Bool
keeps_socket (sent b) = true
keeps_socket (cut b) = false
keeps_socket (sending b) = true

close_after-Written :
    (t : Socket) (buffer : List ℕ) (r : Dispatch)
    → connected t ≡ true
    → Written buffer r
    → let (u, dispatch) = close_after_send t r in
      Written buffer dispatch × (connected u ≡ keeps_socket dispatch)
close_after-Written t buffer (sent b) c e = (e, c)
close_after-Written t buffer (cut b) c e = (e, refl)
close_after-Written t buffer (sending b) c e = (e, c)

-- Whatever the system answers, a `send` that reports success has written the whole buffer, in
-- order; otherwise the bytes written are an initial part of it. The socket is connected after the
-- call unless the call fails.
pub send-Written :
    (s : Socket) (d : Dial) (buffer : List ℕ) (first : Departure) (script : List Attempt)
    → let (t, dispatch) = send s d buffer first script in
      Written buffer dispatch × (connected t ≡ keeps_socket dispatch)
unfolding send
send-Written s d buffer first script = elim (Bool-cases (check_connection s d).1) [
  | inl e ↦
      rw (e, send)
        (close_after-Written _ buffer _ (sym (check_connection-connected s d) ∙ e)
          (send_bytes-Written buffer first script))
  | inr e ↦ rw (e, send) ((buffer, refl), sym (check_connection-connected s d) ∙ e)
]
