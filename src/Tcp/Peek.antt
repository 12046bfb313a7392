-- ===== src/Tcp/Peek.antt =====
-- src/utils/network/TcpComm.cpp: `receive` with `wait` false, in the build without WIN32.
use Prim.Native.Nat.{min}
use mundosvirtuales_terremot.Base.{
  ℕ, ◌≡◌, refl, ◌∙◌, sym, inl, inr, Bool, true, List, [], Option, none, some, arith, length,
  Bool-cases, if◌then◌else◌, ltb, ◌==◌,
}
use mundosvirtuales_terremot.Tcp.{
  Arrival, ready, shutdown, unready, broken, Receipt, dropped, receive_loop, Socket, Dial,
  connected, check_connection, close_socket, close_after_receive,
}
use mundosvirtuales_terremot.Tcp.Receive.{
  Exact, keeps_socket, check_connection-connected, receive_loop-Exact, close_after-Exact,
}

-- What the look at the stream decides: all bytes are there, too few are, or the connection is over.
pub data Look : Type 0 where
  enough short over : Look

-- `recv` with MSG_PEEK and the tests after it, on a stream of `available` bytes.
abbrev pub peek : ℕ → ℕ → Arrival → Look
peek size available (ready k) =
    let got = min (min k size) available in
    if ltb got size then (if got == 0 then over else short) else enough
peek size available shutdown = if ltb 0 size then over else enough
peek size available (unready fails) = short
peek size available broken = over

-- `receive(buffer, size, false)`: the socket after the call and its end; `none` is a call that returns
-- false and keeps the socket.
unfoldable pub receive_now :
    Socket → Dial → ℕ → List ℕ → Arrival → List Arrival → Socket × Option Receipt
unfolding receive_loop check_connection
receive_now s d size stream look script =
    let (t, usable) = check_connection s d in
    if usable
    then elim (peek size (length stream) look) [
      | enough ↦
          let (u, receipt) = close_after_receive t (receive_loop size [] stream script) in
          (u, some receipt)
      | short ↦ (t, none)
      | over ↦ (close_socket t, some dropped)
    ]
    else (t, some dropped)

-- The end of a call, `none` for one that changed nothing.
abbrev pub ExactNow : ℕ → List ℕ → Option Receipt → Type 0
ExactNow size stream none = Unit
ExactNow size stream (some receipt) = Exact size stream receipt

abbrev pub keeps_now : Option Receipt → Bool
keeps_now none = true
keeps_now (some receipt) = keeps_socket receipt

peeked-Exact :
    (t : Socket) (size : ℕ) (stream : List ℕ) (script : List Arrival) (look : Look)
    → connected t ≡ true
    → let r : Socket × Option Receipt = elim look [
      | enough ↦
          let (u, receipt) = close_after_receive t (receive_loop size [] stream script) in
          (u, some receipt)
      | short ↦ (t, none)
      | over ↦ (close_socket t, some dropped)
    ] in
      ExactNow size stream r.1 × (connected r.0 ≡ keeps_now r.1)
peeked-Exact t size stream script enough c =
    close_after-Exact t size stream _ c (receive_loop-Exact size [] stream script (omega arith))
peeked-Exact t size stream script short c = (tt, c)
peeked-Exact t size stream script over c = (tt, refl)

-- A `receive` that does not wait either fills the buffer with exactly the next `size` bytes, closes the
-- socket, or reports failure with the socket open and nothing taken from the stream.
pub receive_now-Exact :
    (s : Socket) (d : Dial) (size : ℕ) (stream : List ℕ) (look : Arrival) (script : List Arrival)
    → let (t, receipt) = receive_now s d size stream look script in
      ExactNow size stream receipt × (connected t ≡ keeps_now receipt)
unfolding receive_now
receive_now-Exact s d size stream look script = elim (Bool-cases (check_connection s d).1) [
  | inl e ↦
      rw (e, receive_now)
        (peeked-Exact _ size stream script (peek size (length stream) look)
          (sym (check_connection-connected s d) ∙ e))
  | inr e ↦ rw (e, receive_now) (tt, sym (check_connection-connected s d) ∙ e)
]
