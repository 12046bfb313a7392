-- ===== src/Channel/Progress.antt =====
-- The channel makes progress when the system does.
use mathlib.Core.Option.{some-injective}
use mathlib.Core.List.{head-eq_of_cons-eq, tail-eq_of_cons-eq}
use Prim.Native.Nat.{min}
use mundosvirtuales_terremot.Base.{
  ℕ, ◌≤◌, ◌≡◌, refl, sym, ap, ◌∙◌, true, inl, inr, List, [], ◌∷◌, ◌++◌, some, arith, length,
  length-append, subst, Option-cases, All, take_all, ltb,
}
use mundosvirtuales_terremot.Packet.{Packet, is_valid, number}
use mundosvirtuales_terremot.Packet.Laws.{wire, length-to_bytes}
use mundosvirtuales_terremot.Client.{recv_message}
use mundosvirtuales_terremot.Client.Wire.{recv_message-wire, send_message-number}
use mundosvirtuales_terremot.Tcp.{
  Socket, Dial, Arrival, received, receive, connected, check_connection, took, full, failed,
  Attempt, clear, sent, send_loop, send_bytes, send,
}
use mundosvirtuales_terremot.Tcp.Receive.{
  Exact, IsFlowing, receive_loop_completes, receive_loop-Exact,
}
use mundosvirtuales_terremot.Channel.{Link, Op, send_packet, recv_packet, send_over, recv_over, run}
use mundosvirtuales_terremot.Channel.Fifo.{
  Carries, Fits, replay, send_over-Carries, recv_over-Carries, first_on_the_way,
}

-- The system takes a message of the current version whole, and delivers something at each of at least
-- sixteen reads.
abbrev pub Prompt : Op → Type 0
Prompt (send_packet p d (took k) script) = (is_valid p ≡ true) × (16 ≤ k)
Prompt (send_packet p d full script) = ⊥
Prompt (send_packet p d failed script) = ⊥
Prompt (recv_packet d script) = IsFlowing script × (16 ≤ length script)

abbrev pub IsUp : Link → Type 0
IsUp l = (connected l.sender ≡ true) × (connected l.receiver ≡ true)

send_bytes_done :
    (buffer : List ℕ) (k : ℕ) (script : List Attempt)
    → length buffer ≡ 16
    → 16 ≤ k
    → send_bytes buffer (took k) script ≡ sent buffer
unfolding send_bytes send_loop
send_bytes_done buffer k script size h =
    let n = min k (length buffer) in
    let e : ltb 0 n ≡ true = ground arith in rw e (send_loop_done n script (omega arith))
  where
    send_loop_done :
        (n : ℕ) (rest : List Attempt)
        → n ≡ length buffer
        → send_loop buffer n clear rest ≡ sent buffer
    send_loop_done n [] e = rw (take_all n buffer e) (ground arith)
    send_loop_done n (a ∷ rest) e = rw (take_all n buffer e) (ground arith)

send_done :
    (s : Socket) (d : Dial) (buffer : List ℕ) (k : ℕ) (script : List Attempt)
    → connected s ≡ true
    → length buffer ≡ 16
    → 16 ≤ k
    → send s d buffer (took k) script ≡ (s, sent buffer)
unfolding send check_connection
send_done s d buffer k script c size h = rw (c, send_bytes_done buffer k script size h) refl

send_over_completes :
    (l : Link) (p : Packet) (d : Dial) (k : ℕ) (script : List Attempt)
    → IsUp l
    → is_valid p ≡ true
    → 16 ≤ k
    → (m : Link) × (send_over l p d (took k) script ≡ some m) × IsUp m
unfolding send_over
send_over_completes l p d k script (s, r) v h =
    let buffer = wire (number l.index p).0 in
    let numbered = send_message-number l.index p v in
    let done = send_done l.sender d buffer k script s (length-to_bytes _) h in
    (
      record l { index = (number l.index p).1; stream = l.stream ++ buffer },
      rw (numbered, done, send_over) (rw (done, numbered) refl),
      (s, r),
    )

receive_done :
    (s : Socket) (d : Dial) (stream : List ℕ) (script : List Arrival)
    → connected s ≡ true
    → 16 ≤ length stream
    → IsFlowing script
    → 16 ≤ length script
    → (b : List ℕ) × (rest : List ℕ) × (receive s d 16 stream script ≡ (s, received b rest))
      × (length b ≡ 16)
      × (b ++ rest ≡ stream)
unfolding receive check_connection
receive_done s d stream script c enough flow turns =
    let (b, rest, e) =
      receive_loop_completes 16 [] stream script (omega arith) (omega arith) (omega arith) flow in
    let (size, whole) =
      subst (Exact 16 stream) e (receive_loop-Exact 16 [] stream script (omega arith)) in
    (b, rest, rw (c, e) refl, size, whole)

recv_over_completes :
    (l : Link) (d : Dial) (script : List Arrival) (p : Packet) (way : List Packet)
    → IsUp l
    → Carries l.stream (p ∷ way)
    → Prompt (recv_packet d script)
    → (m : Link) × (recv_over l d script ≡ some (p, m)) × IsUp m
unfolding recv_over
recv_over_completes l d script p way (s, r) c (flow, turns) =
    let (rest, e, _) = c.1 in
    let enough : 16 ≤ length l.stream =
      omega (arith, ap length e, length-append (wire p) rest, length-to_bytes _) in
    let (b, left, done, size, whole) =
      receive_done l.receiver d l.stream script r enough flow turns in
    let (head, others, way', good, bytes, _) =
      first_on_the_way l.stream b left (p ∷ way) c size whole in
    let found : recv_message (some b) ≡ some p =
      ap (λ x. recv_message (some x)) bytes
      ∙ recv_message-wire head good.bounds good.version
      ∙ ap some (head-eq_of_cons-eq (sym way')) in
    (record l { stream = left }, rw (done, found, recv_over) (rw done refl), (s, r))

-- The channel makes progress. On sockets that are connected, when the system takes each message
-- whole, delivers something at each of at least sixteen reads of a call, the packets are of the current
-- version and within their widths, and no call finds the abstract queue empty, every call returns
-- true: the run ends, and has received what the abstract queue gives.
pub run_completes :
    (ops : List Op) (l : Link) (way received_packets left : List Packet) (index : ℕ)
    → IsUp l
    → All Fits ops
    → All Prompt ops
    → Carries l.stream way
    → replay ops l.index way ≡ some (received_packets, index, left)
    → (m : Link) × (run ops l ≡ some (received_packets, m)) × IsUp m
unfolding run replay
run_completes [] l way received_packets left index up fits prompt c e =
    (l, ap (λ x. some (x.0, l)) (some-injective _ _ e), up)
run_completes (send_packet p d (took k) script ∷ ops) l way received_packets left index up fits
      prompt c e =
    let (m, f, up') = send_over_completes l p d k script up prompt.0.0 prompt.0.1 in
    let (number_of, carried) = send_over-Carries l m p d (took k) script way fits.0 c f in
    let (n, g, up'') =
      run_completes ops m (way ++ (number l.index p).0 ∷ []) received_packets left index up' fits.1
        prompt.1 carried
        (ap (λ i. replay ops i (way ++ (number l.index p).0 ∷ [])) number_of ∙ e) in
    (n, rw (f, run) g, up'')
run_completes (send_packet p d full script ∷ ops) l way received_packets left index up fits prompt c
      e =
    absurd prompt.0
run_completes (send_packet p d failed script ∷ ops) l way received_packets left index up fits prompt
      c e =
    absurd prompt.0
run_completes (recv_packet d script ∷ ops) l [] received_packets left index up fits prompt c e = cc
run_completes (recv_packet d script ∷ ops) l (p ∷ way) received_packets left index up fits prompt c
      e =
    let (m, f, up') = recv_over_completes l d script p way up c prompt.0 in
    let (rest, front, number_of, carried) = recv_over-Carries l m p d script (p ∷ way) c f in
    let same : rest ≡ way = sym (tail-eq_of_cons-eq front) in
    elim (Option-cases (replay ops l.index way)) [
      | inl h ↦ cc (rw (h, replay) at e)
      | inr ((ps, i, more), h) ↦
          let (n, g, up'') =
            run_completes ops m way ps more i up' fits.1 prompt.1
              (subst (Carries m.stream) same carried) (ap (λ j. replay ops j way) number_of ∙ h) in
          let done = some-injective _ _ (rw (h, replay) at e) in
          (n, rw (f, g, run) (ap (λ x. some (x.0, n)) done), up'')
    ]
