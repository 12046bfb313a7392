-- ===== src/Channel/Fifo.antt =====
-- The channel refines a queue of packets.
use mathlib.Core.Option.{some-injective}
use mathlib.Core.List.{append_assoc, append-nil}
use mundosvirtuales_terremot.Base.{
  append-injective, ℕ, ◌≡◌, refl, sym, ap, ◌∙◌, true, false, inl, inr, List, [], ◌∷◌, ◌++◌, Option,
  none, some, arith, length, length-append, subst, Option-cases, Bool-cases, All,
}
use mundosvirtuales_terremot.Packet.{Packet, IsPacket, is_valid, number}
use mundosvirtuales_terremot.Packet.Laws.{wire, length-to_bytes, number-IsPacket}
use mundosvirtuales_terremot.Client
use mundosvirtuales_terremot.Client.{recv_message}
use mundosvirtuales_terremot.Client.Wire.{recv_message-wire, send_message-number, number-keeps}
use mundosvirtuales_terremot.Tcp.{
  Dial, Arrival, Receipt, received, dropped, receiving, receive, Departure, Attempt, Dispatch, sent,
  cut, sending, send,
}
use mundosvirtuales_terremot.Tcp.Receive.{Exact, receive-Exact}
use mundosvirtuales_terremot.Tcp.Send.{Written, send-Written}
use mundosvirtuales_terremot.Channel.{
  Link, Op, send_packet, recv_packet, sent_bytes, received_bytes, send_over, recv_over, run,
}

-- A packet as it was sent: numbered, of the current version, its fields within their widths.
pub record IsSent (p : Packet) : Type 0 where
  pub bounds : IsPacket p
  pub version : is_valid p ≡ true

-- The stream holds the packets, in their order.
abbrev pub Carries : List ℕ → List Packet → Type 0
Carries stream [] = stream ≡ []
Carries stream (p ∷ ps) = IsSent p × ((rest : List ℕ) × (stream ≡ wire p ++ rest) × Carries rest ps)

-- The same calls on an abstract queue, the packets on their way, with the request index.
unfoldable pub replay : List Op → ℕ → List Packet → Option (List Packet × ℕ × List Packet)
replay [] index way = some ([], index, way)
replay (send_packet p d first script ∷ ops) index way =
    let (numbered, index') = number index p in replay ops index' (way ++ numbered ∷ [])
replay (recv_packet d script ∷ ops) index [] = none
replay (recv_packet d script ∷ ops) index (p ∷ way) = elim (replay ops index way) [
  | none ↦ none
  | some (ps, index', rest) ↦ some (p ∷ ps, index', rest)
]

-- The packets that are sent fit their widths.
abbrev pub Fits : Op → Type 0
Fits (send_packet p d first script) = IsPacket p
Fits (recv_packet d script) = Unit

Carries-append :
    (stream : List ℕ) (ps : List Packet) (p : Packet)
    → Carries stream ps
    → IsSent p
    → Carries (stream ++ wire p) (ps ++ p ∷ [])
Carries-append stream [] p c s = (s, ([], rw c (sym (append-nil (wire p))), refl))
Carries-append stream (q ∷ ps) p (t, (rest, e, c)) s =
    (t, (rest ++ wire p, rw e (append_assoc (wire q) rest (wire p)), Carries-append rest ps p c s))

pub number-IsSent :
    (index : ℕ) (p : Packet) → IsPacket p → is_valid p ≡ true → IsSent (number index p).0
number-IsSent index p w v = record {
  bounds = number-IsPacket index p w;
  version = let (same, _, _, _) = number-keeps index p in ground arith;
}

sent_bytes-Written :
    (buffer b : List ℕ) (r : Dispatch) → Written buffer r → sent_bytes r ≡ some b → b ≡ buffer
sent_bytes-Written buffer b (sent c) w e = sym (some-injective _ _ e) ∙ w
sent_bytes-Written buffer b (cut c) w e = cc
sent_bytes-Written buffer b (sending c) w e = cc

received_bytes-Exact :
    (size : ℕ) (whole b rest : List ℕ) (r : Receipt)
    → Exact size whole r
    → received_bytes r ≡ some (b, rest)
    → (length b ≡ size) × (b ++ rest ≡ whole)
received_bytes-Exact size whole b rest (received c more) w e =
    let same : (c, more) ≡ (b, rest) = some-injective _ _ e in
    (ap (λ x. length x.0) (sym same) ∙ w.0, ap (λ x. x.0 ++ x.1) (sym same) ∙ w.1)
received_bytes-Exact size whole b rest dropped w e = cc
received_bytes-Exact size whole b rest receiving w e = cc

send_message_invalid :
    (index : ℕ) (p : Packet) → is_valid p ≡ false → (Client.send_message index p).0 ≡ none
unfolding Client.send_message
send_message_invalid index p v = rw v refl

-- A call of `sendMessage` that returns true appends the packet to the queue.
pub send_over-Carries :
    (l m : Link) (p : Packet) (d : Dial) (first : Departure) (script : List Attempt)
    (way : List Packet)
    → IsPacket p
    → Carries l.stream way
    → send_over l p d first script ≡ some m
    → (m.index ≡ (number l.index p).1) × Carries m.stream (way ++ (number l.index p).0 ∷ [])
unfolding send_over
send_over-Carries l m p d first script way w c e = elim (Bool-cases (is_valid p)) [
  | inr v ↦ cc (rw (send_message_invalid l.index p v, send_over) at e)
  | inl v ↦
      let q = (number l.index p).0 in
      let r = send l.sender d (wire q) first script in
      elim (Option-cases (sent_bytes r.1)) [
        | inl f ↦ cc (rw (send_message-number l.index p v, f, send_over) at e)
        | inr (b, f) ↦
            let same =
              some-injective _ _ (rw (send_message-number l.index p v, f, send_over) at e) in
            let whole : b ≡ wire q =
              sent_bytes-Written (wire q) b r.1 (send-Written l.sender d (wire q) first script).0
                f in
            (
              sym (ap (λ k. k.index) same) ∙ ap (λ x. x.1) (send_message-number l.index p v),
              subst (λ st. Carries st (way ++ q ∷ []))
                  (ap (◌++◌ l.stream) (sym whole) ∙ ap (λ k. k.stream) same)
                  (Carries-append l.stream way q c (number-IsSent l.index p w v)),
            )
      ]
]

-- Sixteen bytes from the front of the stream are the first packet on the way.
pub first_on_the_way :
    (stream b rest : List ℕ) (way : List Packet)
    → Carries stream way
    → length b ≡ 16
    → b ++ rest ≡ stream
    → (head : Packet) × (others : List Packet) × (way ≡ head ∷ others)
      × IsSent head
      × (b ≡ wire head)
      × Carries rest others
first_on_the_way stream b rest [] c size whole =
    absurd (omega (arith, length-append b rest, ap length (whole ∙ c)))
first_on_the_way stream b rest (p ∷ ps) (s, (more, e, c)) size whole =
    let (bytes, same) =
      append-injective b (wire p) rest more (size ∙ sym (length-to_bytes _)) (whole ∙ e) in
    (p, ps, refl, s, bytes, subst (λ st. Carries st ps) (sym same) c)

-- A call of `recvMessage` that returns true takes the first packet out of the queue.
pub recv_over-Carries :
    (l m : Link) (p : Packet) (d : Dial) (script : List Arrival) (way : List Packet)
    → Carries l.stream way
    → recv_over l d script ≡ some (p, m)
    → (rest : List Packet) × (way ≡ p ∷ rest) × (m.index ≡ l.index) × Carries m.stream rest
unfolding recv_over
recv_over-Carries l m p d script way c e =
    elim (Option-cases (received_bytes (receive l.receiver d 16 l.stream script).1)) [
      | inl f ↦ cc (rw (f, recv_over) at e)
      | inr ((b, rest), f) ↦ elim (Option-cases (recv_message (some b))) [
        | inl g ↦ cc (rw (f, g, recv_over) at e)
        | inr (q, g) ↦
            let same = some-injective _ _ (rw (f, g, recv_over) at e) in
            let (size, whole) =
              received_bytes-Exact 16 l.stream b rest _
                (receive-Exact l.receiver d 16 l.stream script).0 f in
            let (head, others, way', sent_head, bytes, carried) =
              first_on_the_way l.stream b rest way c size whole in
            let found : some q ≡ some head =
              sym g
              ∙ ap (λ x. recv_message (some x)) bytes
              ∙ recv_message-wire head sent_head.bounds sent_head.version in
            (
              others,
              way' ∙ ap (λ x. x ∷ others) (sym (some-injective _ _ found) ∙ ap (λ x. x.0) same),
              sym (ap (λ x. x.1.index) same),
              subst (λ st. Carries st others) (ap (λ x. x.1.stream) same) carried,
            )
      ]
    ]

replay-recv_packet :
    (ops : List Op) (d : Dial) (script : List Arrival) (index : ℕ) (p : Packet)
    (rest ps : List Packet)
    → (index' : ℕ) (left : List Packet) → replay ops index rest ≡ some (ps, index', left)
    → replay (recv_packet d script ∷ ops) index (p ∷ rest) ≡ some (p ∷ ps, index', left)
unfolding replay
replay-recv_packet ops d script index p rest ps index' left e = rw e refl

-- The channel refines a queue of packets. From a link whose stream carries some packets, every sequence
-- of calls that return true receives what the same calls take out of the queue of these packets, a
-- call of `sendMessage` appending its packet as it was numbered; and the stream carries what is
-- left in the queue. The fields of the packets that are sent are within their widths.
pub run-replay :
    (ops : List Op) (l m : Link) (way received_packets : List Packet)
    → All Fits ops
    → Carries l.stream way
    → run ops l ≡ some (received_packets, m)
    → (left : List Packet) × (replay ops l.index way ≡ some (received_packets, m.index, left))
      × Carries m.stream left
unfolding run replay
run-replay [] l m way received_packets fits c e =
    let same = some-injective _ _ e in
    (way, ap (λ x. some (x.0, x.1.index, way)) same, subst (λ x. Carries x.1.stream way) same c)
run-replay (send_packet p d first script ∷ ops) l m way received_packets (w, fits) c e =
    elim (Option-cases (send_over l p d first script)) [
      | inl f ↦ cc (rw (f, run) at e)
      | inr (k, f) ↦
          let (index, carried) = send_over-Carries l k p d first script way w c f in
          let (left, same, more) =
            run-replay ops k m (way ++ (number l.index p).0 ∷ []) received_packets fits carried
              (rw (f, run) at e) in
          (left, ap (λ i. replay ops i (way ++ (number l.index p).0 ∷ [])) (sym index) ∙ same, more)
    ]
run-replay (recv_packet d script ∷ ops) l m way received_packets (w, fits) c e =
    elim (Option-cases (recv_over l d script)) [
      | inl f ↦ cc (rw (f, run) at e)
      | inr ((p, k), f) ↦ elim (Option-cases (run ops k)) [
        | inl g ↦ cc (rw (f, g, run) at e)
        | inr ((ps, n), g) ↦
            let (rest, front, index, carried) = recv_over-Carries l k p d script way c f in
            let (left, same, more) = run-replay ops k n rest ps fits carried g in
            let done = some-injective _ _ (rw (f, g, run) at e) in
            (
              left,
              ap (replay (recv_packet d script ∷ ops) l.index) front
                  ∙ replay-recv_packet ops d script l.index p rest ps n.index left
                      (ap (λ i. replay ops i rest) (sym index) ∙ same)
                  ∙ ap (λ x. some (x.0, x.1.index, left)) done,
              subst (λ x. Carries x.1.stream left) done more,
            )
      ]
    ]
