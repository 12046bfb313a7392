-- ===== src/Tcp/Receive.antt =====
-- `receive` hands over exactly the next `size` bytes of the stream, however they arrive.
use Prim.Native.Nat.{min}
use mundosvirtuales_terremot.Base.{
  ℕ, suc, ◌+◌, ◌-◌, ◌≤◌, ◌<◌, ◌≡◌, refl, ◌∙◌, sym, ap, subst, inl, inr, Bool, true, false, List, [],
  ◌∷◌, ◌++◌, arith, length, take, drop, take-append-drop, length-take, length-append, All, tests,
  Bool-cases, ltb, ◌==◌,
}
use mundosvirtuales_terremot.Tcp.{
  Arrival, ready, shutdown, unready, broken, Receipt, received, dropped, receiving, receive_loop,
  Socket, Dial, receive, connected, check_connection, close_after_receive,
}
use mathlib.Core.List.{append_assoc}

-- What a receipt promises about the stream before it.
abbrev pub Exact : ℕ → List ℕ → Receipt → Type 0
Exact size whole (received buffer rest) = (length buffer ≡ size) × (buffer ++ rest ≡ whole)
Exact size whole dropped = Unit
Exact size whole receiving = Unit

length_taken :
    (size k : ℕ) (buffer stream : List ℕ)
    → length buffer ≤ size
    → length (buffer ++ take (min (min k (size - length buffer)) (length stream)) stream) ≤ size
length_taken size k buffer stream h = omega (
  arith,
  length-append buffer (take (min (min k (size - length buffer)) (length stream)) stream),
  length-take (min (min k (size - length buffer)) (length stream)) stream,
)

pub kept :
    (buffer stream : List ℕ) (n : ℕ) → (buffer ++ take n stream) ++ drop n stream ≡ buffer ++ stream
kept buffer stream n = append_assoc buffer _ _ ∙ ap (◌++◌ buffer) (take-append-drop n stream)

pub receive_loop-Exact :
    (size : ℕ) (buffer stream : List ℕ) (script : List Arrival)
    → length buffer ≤ size
    → Exact size (buffer ++ stream) (receive_loop size buffer stream script)
unfolding receive_loop
receive_loop-Exact size buffer stream [] h = ground arith
receive_loop-Exact size buffer stream (ready k ∷ script) h =
    let got = min (min k (size - length buffer)) (length stream) in
    let more =
      subst
        (λ whole.
          Exact size whole (receive_loop size (buffer ++ take got stream) (drop got stream) script))
        (kept buffer stream got)
        (receive_loop-Exact size (buffer ++ take got stream) (drop got stream) script
          (length_taken size k buffer stream h)) in
    elim (Bool-cases (ltb (length buffer) size)) [
      | inl e ↦ elim (Bool-cases (got == 0)) [ inl z ↦ rw (e, z) tt | inr z ↦ rw (e, z) more ]
      | inr e ↦ rw e (ground arith, refl)
    ]
receive_loop-Exact size buffer stream (shutdown ∷ script) h = ground arith
receive_loop-Exact size buffer stream (unready fails ∷ script) h =
    ground (arith, receive_loop-Exact size buffer stream script h)
receive_loop-Exact size buffer stream (broken ∷ script) h = ground arith

-- A call that ends well, or has not ended, keeps the socket.
abbrev pub keeps_socket : Receipt → Bool
keeps_socket (received buffer rest) = true
keeps_socket dropped = false
keeps_socket receiving = true

-- `check_connection` reports success exactly when the socket is connected after it.
pub check_connection-connected :
    (s : Socket) (d : Dial) → (check_connection s d).1 ≡ connected (check_connection s d).0
unfolding check_connection
check_connection-connected s d = ground arith

pub close_after-Exact :
    (t : Socket) (size : ℕ) (stream : List ℕ) (r : Receipt)
    → connected t ≡ true
    → Exact size stream r
    → let (u, receipt) = close_after_receive t r in
      Exact size stream receipt × (connected u ≡ keeps_socket receipt)
close_after-Exact t size stream (received buffer rest) c e = (e, c)
close_after-Exact t size stream dropped c e = (e, refl)
close_after-Exact t size stream receiving c e = (e, c)

-- Whatever the system answers, a `receive` that reports success has filled the buffer with exactly
-- the next `size` bytes of the stream and left the rest to be read. The socket is connected after
-- the call unless the call fails.
pub receive-Exact :
    (s : Socket) (d : Dial) (size : ℕ) (stream : List ℕ) (script : List Arrival)
    → let (t, receipt) = receive s d size stream script in
      Exact size stream receipt × (connected t ≡ keeps_socket receipt)
unfolding receive
receive-Exact s d size stream script = elim (Bool-cases (check_connection s d).1) [
  | inl e ↦
      rw (e, receive)
        (close_after-Exact _ size stream _ (sym (check_connection-connected s d) ∙ e)
          (receive_loop-Exact size [] stream script (omega arith)))
  | inr e ↦ rw (e, receive) (tt, sym (check_connection-connected s d) ∙ e)
]

-- Every answer delivers at least one byte.
abbrev pub IsFlowing : List Arrival → Type 0
IsFlowing = All (λ a. (k : ℕ) × (a ≡ ready (suc k)))

-- With at most `size` bytes stored and a stream that holds the missing ones, answers that each deliver
-- something end the loop with success if there are as many of them as bytes are missing.
pub receive_loop_completes :
    (size : ℕ) (buffer stream : List ℕ) (script : List Arrival)
    → length buffer ≤ size
    → size ≤ length buffer + length stream
    → size ≤ length buffer + length script
    → IsFlowing script
    → (b : List ℕ) × (rest : List ℕ) × (receive_loop size buffer stream script ≡ received b rest)
unfolding receive_loop
receive_loop_completes size buffer stream [] h enough turns flow = (buffer, stream, ground arith)
receive_loop_completes size buffer stream (ready k ∷ script) h enough turns flow =
    elim (Bool-cases (ltb (length buffer) size)) [
      | inl e ↦
          rw (e, some_bytes (omega tests))
            (receive_loop_completes size (buffer ++ take got stream) (drop got stream) script
              (length_taken size k buffer stream h)
              (omega (
                arith,
                ap length (kept buffer stream got),
                length-append (buffer ++ take got stream) (drop got stream),
                length-append buffer stream,
              ))
              (omega (
                tests,
                length-append buffer (take got stream),
                length-take got stream,
                positive (omega tests),
              ))
              flow.1)
      | inr e ↦ (buffer, stream, rw e)
    ]
  where
    got : ℕ
    got = min (min k (size - length buffer)) (length stream)

    positive : length buffer < size → 0 < got
    positive less = ground (arith, flow.0.1)

    some_bytes : length buffer < size → (got == 0) ≡ false
    some_bytes less = ground (arith, positive less)
receive_loop_completes size buffer stream (shutdown ∷ script) h enough turns flow = cc (flow.0.1)
receive_loop_completes size buffer stream (unready f ∷ script) h enough turns flow = cc (flow.0.1)
receive_loop_completes size buffer stream (broken ∷ script) h enough turns flow = cc (flow.0.1)
