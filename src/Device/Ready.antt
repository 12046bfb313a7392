-- ===== src/Device/Ready.antt =====
-- What a device is like when `connectToServer` returns.
use mathlib.Core.Option.{some-injective}
use mundosvirtuales_terremot.Base.{
  ◌⊎◌, ℕ, ◌≡◌, refl, sym, ap, ◌∙◌, Bool, true, false, List, [], ◌∷◌, ◌++◌, Option, none, some,
  arith, Bool-cases, Option-cases, inl, inr, ◌==◌,
}
use mundosvirtuales_terremot.Base.Int.{ℤ, word32}
use mundosvirtuales_terremot.Packet.{
  Packet, Command, command_code, acknowledge_client, renew_device_id,
}
use mundosvirtuales_terremot.Packet.Laws.{wire}
use mundosvirtuales_terremot.Handshake.{FloatOps}
use mundosvirtuales_terremot.Device.{
  ServerComm, Device, Line, Outcome, refused, out_message, send_message, set_id, is_valid_id,
  receive_message_now, take_identity, answer_server, ack_server,
}
use mundosvirtuales_terremot.Device.Connecting.{
  Round, unreachable, reachable, Dialling, linked, dialling, dial_rounds, connect_to_server,
  setup_connection,
}

-- A valid identification is the one in the EEPROM.
abbrev pub IsStored : Device → Type 0
IsStored d = (is_valid_id d.id_device ≡ false) ⊎ (d.eeprom ≡ d.id_device)

-- An identification that is valid, stored, and the one that messages carry.
pub record IsReady (d : Device) : Type 0 where
  pub valid : is_valid_id d.id_device ≡ true
  pub stored : d.eeprom ≡ d.id_device
  pub carried : d.comm.id ≡ word32 d.id_device

abbrev pub Good : Outcome → Type 0
Good out = IsStored out.device × (out.acknowledged ≡ true → IsReady out.device)

refused-Good : (d : Device) (written : List (List ℕ)) → IsStored d → Good (refused d written)
refused-Good d written h = (h, λ e. cc)

send_message-keeps :
    (c : ServerComm) (command : Command) (ratio : Option ℕ) (junk : ℕ) (b : Bool)
    → (send_message c command ratio junk b).0.id ≡ c.id
unfolding send_message
send_message-keeps c command ratio junk true = refl
send_message-keeps c command ratio junk false = refl

take_identity-Good :
    (f : FloatOps) (d : Device) (line : Line) (written : List (List ℕ)) (answer : Option Packet)
    → is_valid_id d.id_device ≡ false
    → Good (take_identity f d line written answer)
unfolding take_identity send_message
take_identity-Good f d line written none v = refused-Good d written (inl v)
take_identity-Good f d line written (some m) v =
    elim (Bool-cases (m.header.command == command_code renew_device_id)) [
      | inr c ↦ rw (c, take_identity) (refused-Good d written (inl v))
      | inl c ↦ elim (Bool-cases (is_valid_id (f.to_int m.payload))) [
        | inr i ↦ rw (c, i, take_identity) (refused-Good _ written (inl i))
        | inl i ↦ elim (Bool-cases line.connected_again) [
          | inl k ↦
              rw (c, i, k, take_identity)
                (
                  inr refl,
                  λ e. record {
                    valid = i;
                    stored = refl;
                    carried =
                        send_message-keeps _ acknowledge_client none line.junk line.connected_again;
                  },
                )
          | inr k ↦ rw (c, i, k, take_identity) (inr refl, λ e. cc)
        ]
      ]
    ]

stored_if : (d : Device) → IsStored d → is_valid_id d.id_device ≡ true → d.eeprom ≡ d.id_device
stored_if d (inl n) v = cc
stored_if d (inr e) v = e

answer_server-Good :
    (f : FloatOps) (d : Device) (line : Line) (answer : Option Packet)
    → IsStored d
    → Good (answer_server f d line answer)
unfolding answer_server send_message
answer_server-Good f d line none h = refused-Good d [] h
answer_server-Good f d line (some m) h =
    elim (Bool-cases (m.header.command == command_code acknowledge_client)) [
      | inr c ↦ rw (c, answer_server) (refused-Good d [] h)
      | inl c ↦ elim (Bool-cases line.connected) [
        | inr k ↦ rw (c, k, answer_server) (refused-Good _ [] h)
        | inl k ↦ elim (Bool-cases (is_valid_id d.id_device)) [
          | inl v ↦
              rw (c, k, v, answer_server)
                (
                  h,
                  λ e. record {
                    valid = v;
                    stored = stored_if d h v;
                    carried =
                        send_message-keeps (set_id d).comm acknowledge_client none line.junk
                          line.connected;
                  },
                )
          | inr v ↦
              rw (c, k, v, answer_server)
                (take_identity-Good f _ line _ (receive_message_now line.array_again line.second) v)
        ]
      ]
    ]

-- What the loop promises of its end.
abbrev pub Settled : Dialling → Type 0
Settled (linked d written) = IsReady d
Settled (dialling d written) = IsStored d

dial_rounds-Settled :
    (f : FloatOps) (d : Device) (written : List (List ℕ)) (rounds : List Round)
    → IsStored d
    → Settled (dial_rounds f d written rounds)
unfolding dial_rounds ack_server
dial_rounds-Settled f d written [] h = h
dial_rounds-Settled f d written (unreachable ∷ rounds) h = dial_rounds-Settled f d written rounds h
dial_rounds-Settled f d written (reachable line ∷ rounds) h =
    let out = ack_server f d line in
    let (stored, ready) =
      answer_server-Good f d line (receive_message_now line.array line.first) h in
    elim (Bool-cases out.acknowledged) [
      | inl a ↦ rw (a, dial_rounds) (ready a)
      | inr a ↦
          rw (a, dial_rounds)
            (dial_rounds-Settled f out.device (written ++ out.written) rounds stored)
    ]

-- Every message that a linked device writes carries its identification.
abbrev pub Announces : Dialling → Type 0
Announces (linked d written) =
    (command : Command) (ratio : Option ℕ) (junk : ℕ)
    → (p : Packet) × ((send_message d.comm command ratio junk true).1 ≡ some (wire p))
      × (p.header.id_device ≡ word32 d.id_device)
Announces (dialling d written) = Unit

Settled-Announces : (o : Dialling) → Settled o → Announces o
unfolding send_message
Settled-Announces (linked d written) h =
    λ command ratio junk. (out_message d.comm command ratio junk, refl, h.carried)
Settled-Announces (dialling d written) h = tt

-- Whatever identification the EEPROM holds and whatever the network and the server do, a sketch that
-- is connected after its start has a valid identification, which is in the EEPROM and in every
-- message that it writes next, whatever its command; while it is still dialling, an identification that is
-- valid is in the EEPROM.
pub setup_connection-Settled :
    (f : FloatOps) (prefix : List ℕ) (eeprom : ℤ) (comm : ServerComm) (rounds : List Round)
    → let o = (setup_connection f prefix eeprom comm rounds).1 in Settled o × Announces o
unfolding setup_connection connect_to_server
setup_connection-Settled f prefix eeprom comm rounds =
    let settled =
      dial_rounds-Settled f (record { id_device = eeprom; eeprom = eeprom; comm = comm }) [] rounds
        (inr refl) in
    (settled, Settled-Announces _ settled)

-- The line brings the server's acknowledgment, and takes the answer.
abbrev pub Answers : Line → Type 0
Answers line =
    (m : Packet) × (receive_message_now line.array line.first ≡ some m)
    × (m.header.command ≡ command_code acknowledge_client)
    × (line.connected ≡ true)

keeps_valid_id :
    (f : FloatOps) (d : Device) (line : Line)
    → IsReady d
    → let out = ack_server f d line in IsReady out.device × (Answers line → out.acknowledged ≡ true)
unfolding ack_server answer_server send_message
keeps_valid_id f d line r = elim (Option-cases (receive_message_now line.array line.first)) [
  | inl n ↦ rw (n, ack_server) (r, λ a. cc)
  | inr (m, e) ↦ elim (Bool-cases (m.header.command == command_code acknowledge_client)) [
    | inr c ↦ rw (e, c, ack_server) (r, λ a. absurd (wrong_command m c e (a.0, e ∙ a.1, a.2, a.3)))
    | inl c ↦ elim (Bool-cases line.connected) [
      | inr k ↦ rw (e, c, k, ack_server) (ready, λ a. cc)
      | inl k ↦ rw (e, c, k, r.valid, ack_server) (ready, λ a. refl)
    ]
  ]
]
  where
    ready : IsReady (record (set_id d) {
      comm = (send_message (set_id d).comm acknowledge_client none line.junk line.connected).0;
    })
    ready = record {
      valid = r.valid;
      stored = r.stored;
      carried = send_message-keeps (set_id d).comm acknowledge_client none line.junk line.connected;
    }

    wrong_command :
        (m : Packet)
        → (m.header.command == command_code acknowledge_client) ≡ false
        → receive_message_now line.array line.first ≡ some m
        → Answers line
        → ⊥
    wrong_command m c e (p, e', k, _) =
        let same : m ≡ p = some-injective _ _ (sym e ∙ e') in
        let h : m.header.command ≡ command_code acknowledge_client =
          ap (λ q. q.header.command) same ∙ k in
        ground arith

-- A sketch that was connected and dials again is connected after the first round that brings the
-- server's acknowledgment and takes the answer, whatever happened in the rounds before it.
pub dial_rounds_again :
    (f : FloatOps) (d : Device) (written : List (List ℕ)) (rounds later : List Round) (line : Line)
    → IsReady d
    → Answers line
    → (e : Device) × (messages : List (List ℕ)) × (dial_rounds f d written
          (rounds ++ reachable line ∷ later)
        ≡ linked e messages)
      × IsReady e
unfolding dial_rounds
dial_rounds_again f d written [] later line r a =
    let out = ack_server f d line in
    let (ready, done) = keeps_valid_id f d line r in
    (out.device, written ++ out.written, rw (done a, dial_rounds) refl, ready)
dial_rounds_again f d written (unreachable ∷ rounds) later line r a =
    dial_rounds_again f d written rounds later line r a
dial_rounds_again f d written (reachable first ∷ rounds) later line r a =
    let out = ack_server f d first in
    let (ready, _) = keeps_valid_id f d first r in
    elim (Bool-cases out.acknowledged) [
      | inl k ↦ (out.device, written ++ out.written, rw (k, dial_rounds) refl, ready)
      | inr k ↦
          let (e, messages, same, ready') =
            dial_rounds_again f out.device (written ++ out.written) rounds later line ready a in
          (e, messages, rw (k, dial_rounds) same, ready')
    ]
