-- ===== src/Device/Speaking.antt =====
-- What the sketches say while they live: every message after `setup` carries the stored identification, and the server
-- receives it.

use mundosvirtuales_terremot.Base.{
  ℕ, ◌+◌, ◌<◌, ◌^◌, ◌%◌, ◌≡◌, refl, sym, ap, subst, ◌∙◌, ◌⊎◌, inl, inr, Bool, true, false, List, [],
  ◌∷◌, ◌++◌, Option, none, some, arith, Bool-cases, Option-cases, ◌==◌,
}
use mundosvirtuales_terremot.Base.Int.{ℤ, word32, word32-lt}
use mundosvirtuales_terremot.Packet.{
  Packet, IsPacket, Command, alive, earthquake, acknowledge_client, command_code,
}
use mundosvirtuales_terremot.Packet.Laws.{wire}
use mundosvirtuales_terremot.Client.{recv_message}
use mundosvirtuales_terremot.Client.Wire.{recv_message-wire}
use mundosvirtuales_terremot.Handshake.{FloatOps}
use mundosvirtuales_terremot.Device.{
  ServerComm, Device, Line, out_message, send_message, set_id, is_valid_id, receive_message_now,
  answer_server, ack_server,
}
use mundosvirtuales_terremot.Device.Connecting.{
  Round, unreachable, reachable, Dialling, linked, dialling, dial_rounds, Upkeep, up, down,
  reconnect,
}
use mundosvirtuales_terremot.Device.Ready.{IsReady}
use mundosvirtuales_terremot.Device.Sensing.{
  Sensor, Reading, undefined, reconnecting, finished, report,
}

-- A device that is ready to speak under the identification `id`.
pub record Speaking (id : ℤ) (d : Device) : Type 0 where
  pub ready : IsReady d
  pub same : d.id_device ≡ id
  pub number : d.comm.message_id < 2 ^ 32

-- The server receives the bytes as a sign of life or an earthquake of the device `id`.
abbrev pub Said : ℤ → List ℕ → Type 0
Said id bytes =
    (p : Packet) × (recv_message (some bytes) ≡ some p)
    × (p.header.id_device ≡ word32 id)
    × ((p.header.command ≡ command_code alive) ⊎ (p.header.command ≡ command_code earthquake))

abbrev pub SaidIf : ℤ → Option (List ℕ) → Type 0
SaidIf id none = Unit
SaidIf id (some bytes) = Said id bytes

-- A payload that is given has 32 bits, and so has what is read without one.
abbrev pub Payload : Option ℕ → ℕ → Type 0
Payload none junk = junk < 2 ^ 32
Payload (some ratio) junk = ratio < 2 ^ 32

counted :
    (id : ℤ) (d : Device)
    → Speaking id d
    → Speaking id
        (record d { comm = record (d.comm) { message_id = (d.comm.message_id + 1) % 2 ^ 32 } })
counted id d s = record {
  ready = record { valid = s.ready.valid; stored = s.ready.stored; carried = s.ready.carried };
  same = s.same;
  number = omega arith;
}

said :
    (id : ℤ) (d : Device) (command : Command) (ratio : Option ℕ) (junk : ℕ)
    → Speaking id d
    → Payload ratio junk
    → (command_code command ≡ command_code alive) ⊎ (command_code command ≡ command_code earthquake)
    → Said id (wire (out_message d.comm command ratio junk))
said id d command ratio junk s small spoken = (
  p,
  recv_message-wire p (fits ratio small spoken) refl,
  s.ready.carried ∙ ap word32 s.same,
  spoken,
)
  where
    p : Packet
    p = out_message d.comm command ratio junk

    id-lt : d.comm.id < 2 ^ 32
    id-lt = subst (λ n. n < 2 ^ 32) (sym s.ready.carried) (word32-lt d.id_device)

    fits :
        (r : Option ℕ)
        → Payload r junk
        → (command_code command ≡ command_code alive)
          ⊎ (command_code command ≡ command_code earthquake)
        → IsPacket (out_message d.comm command r junk)
    fits none h (inl c) = omega (arith, id-lt, s.number)
    fits none h (inr c) = omega (arith, id-lt, s.number)
    fits (some r) h (inl c) = omega (arith, id-lt, s.number)
    fits (some r) h (inr c) = omega (arith, id-lt, s.number)

pub send_message-Said :
    (id : ℤ) (d : Device) (command : Command) (ratio : Option ℕ) (junk : ℕ) (is_connected : Bool)
    → Speaking id d
    → Payload ratio junk
    → (command_code command ≡ command_code alive) ⊎ (command_code command ≡ command_code earthquake)
    → let (comm, bytes) = send_message d.comm command ratio junk is_connected in
      Speaking id (record d { comm = comm }) × SaidIf id bytes
unfolding send_message
send_message-Said id d command ratio junk true s small spoken =
    (counted id d s, said id d command ratio junk s small spoken)
send_message-Said id d command ratio junk false s small spoken = (counted id d s, tt)

pub send_message-counts :
    (c : ServerComm) (command : Command) (ratio : Option ℕ) (junk : ℕ) (is_connected : Bool)
    → (send_message c command ratio junk is_connected).0
      ≡ record c { message_id = (c.message_id + 1) % 2 ^ 32 }
unfolding send_message
send_message-counts c command ratio junk true = refl
send_message-counts c command ratio junk false = refl

-- `ackServer` of a device with a valid identification leaves it as it was, or with the identification set again and one more
-- message counted.
ack_server_cases :
    (f : FloatOps) (d : Device) (line : Line)
    → is_valid_id d.id_device ≡ true
    → let e = (ack_server f d line).device in
      (e ≡ d)
      ⊎ (e ≡ record (set_id d) {
        comm = record ((set_id d).comm) { message_id = (d.comm.message_id + 1) % 2 ^ 32 };
      })
unfolding ack_server answer_server send_message
ack_server_cases f d line v =
    let counts =
      ap (λ n. record (set_id d) { comm = n })
        (send_message-counts (set_id d).comm acknowledge_client none line.junk line.connected) in
    elim (Option-cases (receive_message_now line.array line.first)) [
      | inl n ↦ rw (n, ack_server) (inl refl)
      | inr (m, e) ↦ elim (Bool-cases (m.header.command == command_code acknowledge_client)) [
        | inr c ↦ rw (e, c, ack_server) (inl refl)
        | inl c ↦ elim (Bool-cases line.connected) [
          | inr k ↦ rw (e, c, k, ack_server) (inr counts)
          | inl k ↦ rw (e, c, k, v, ack_server) (inr counts)
        ]
      ]
    ]

set_id-Speaking : (id : ℤ) (d : Device) → Speaking id d → Speaking id (set_id d)
set_id-Speaking id d s = record {
  ready = record { valid = s.ready.valid; stored = s.ready.stored; carried = refl };
  same = s.same;
  number = s.number;
}

ack_server-Speaking :
    (f : FloatOps) (id : ℤ) (d : Device) (line : Line)
    → Speaking id d
    → Speaking id (ack_server f d line).device
ack_server-Speaking f id d line s = elim (ack_server_cases f d line s.ready.valid) [
  | inl e ↦ subst (Speaking id) (sym e) s
  | inr e ↦ subst (Speaking id) (sym e) (counted id (set_id d) (set_id-Speaking id d s))
]

-- The connection, when it is there.
abbrev pub SpeakingEnd : ℤ → Dialling → Type 0
SpeakingEnd id (linked d written) = Speaking id d
SpeakingEnd id (dialling d written) = Speaking id d

pub dial_rounds-Speaking :
    (f : FloatOps) (id : ℤ) (d : Device) (written : List (List ℕ)) (rounds : List Round)
    → Speaking id d
    → SpeakingEnd id (dial_rounds f d written rounds)
unfolding dial_rounds
dial_rounds-Speaking f id d written [] s = s
dial_rounds-Speaking f id d written (unreachable ∷ rounds) s =
    dial_rounds-Speaking f id d written rounds s
dial_rounds-Speaking f id d written (reachable line ∷ rounds) s =
    let out = ack_server f d line in
    let t = ack_server-Speaking f id d line s in
    elim (Bool-cases out.acknowledged) [
      | inl a ↦ rw (a, dial_rounds) t
      | inr a ↦
          rw (a, dial_rounds)
            (dial_rounds-Speaking f id out.device (written ++ out.written) rounds t)
    ]

abbrev pub SpeakingIf : ℤ → Option Device → Type 0
SpeakingIf id none = Unit
SpeakingIf id (some d) = Speaking id d

pub reconnect-Speaking :
    (f : FloatOps) (id : ℤ) (d : Device) (upkeep : Upkeep)
    → Speaking id d
    → SpeakingIf id (reconnect f d upkeep)
unfolding reconnect
reconnect-Speaking f id d up s = s
reconnect-Speaking f id d (down rounds) s =
    by_end (dial_rounds f d [] rounds) (dial_rounds-Speaking f id d [] rounds s)
  where
    by_end :
        (o : Dialling)
        → SpeakingEnd id o
        → SpeakingIf id (elim o [ linked e written ↦ some e | dialling e written ↦ none ])
    by_end (linked e written) t = t
    by_end (dialling e written) t = tt

abbrev pub Tells : ℤ → Reading → Type 0
Tells id undefined = Unit
Tells id reconnecting = Unit
Tells id (finished t bytes) = Speaking id t.device × SaidIf id bytes

pub report-Tells :
    (id : ℤ) (s : Sensor) (h : ℕ) (is_connected shaking : Bool)
    → Speaking id s.device
    → h < 2 ^ 32
    → Tells id (report s h is_connected shaking)
report-Tells id s h is_connected true t small =
    send_message-Said id s.device earthquake (some h) 0 is_connected t small (inr refl)
report-Tells id s h is_connected false t small = (t, tt)
