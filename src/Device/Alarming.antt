-- ===== src/Device/Alarming.antt =====
-- arduino/AlarmDevice/AlarmDevice.ino, `loop`: the alarm sounds at the earthquakes that the server reports.

use mundosvirtuales_terremot.Base.{
  take_prefix, drop_prefix, ℕ, zero, suc, ◌+◌, ◌≡◌, refl, ap, ◌∙◌, Bool, true, false, inl, inr,
  List, [], ◌∷◌, ◌++◌, Option, none, some, arith, length, length-append, take, drop, Bool-cases,
  if◌then◌else◌, ltb, ◌==◌, subst,
}
use mundosvirtuales_terremot.Packet.{Packet, earthquake, command_code, is_valid, unpacking}
use mundosvirtuales_terremot.Packet.Laws.{wire, unpacking-wire, length-to_bytes}
use mundosvirtuales_terremot.Client.Wire.{kept}
use mundosvirtuales_terremot.Channel.Fifo.{IsSent, Carries}
use mundosvirtuales_terremot.Handshake.{FloatOps}
use mundosvirtuales_terremot.Device.{Device, decode, receive_message}
use mundosvirtuales_terremot.Device.Connecting.{Upkeep, up, reconnect, unread}

-- The globals with the pin 13, and how often `tone` was called.
pub record Alarm : Type 0 where
  pub device : Device
  pub led : Bool
  pub tones : ℕ

-- `inMessage.m_command == (byte)ServerComm::EARTHQUAKE` of a message that was received.
abbrev pub is_earthquake : Option Packet → Bool
is_earthquake none = false
is_earthquake (some m) = m.header.command == command_code earthquake

-- The pin, and `onAlarm`.
abbrev pub sound : Alarm → Bool → Alarm
sound s true = record s { led = true; tones = suc s.tones }
sound s false = record s { led = false }

-- `loop` on the bytes that have arrived, and the bytes it leaves.
unfoldable pub loop : FloatOps → Alarm → List ℕ → Upkeep → Option (Alarm × List ℕ)
unfolding receive_message reconnect
loop f s stream upkeep =
    let (message, rest) = receive_message stream in
    let sounded = sound s (is_earthquake message) in
    elim (reconnect f s.device upkeep) [
      | none ↦ none
      | some d ↦ some (record sounded { device = d }, unread upkeep rest)
    ]

-- `loop` over and over while the connection lasts.
unfoldable pub listen : FloatOps → ℕ → Alarm → List ℕ → Option (Alarm × List ℕ)
unfolding loop
listen f zero s stream = some (s, stream)
listen f (suc passes) s stream = elim (loop f s stream up) [
  | none ↦ none
  | some (t, rest) ↦ listen f passes t rest
]

-- The earthquakes among the packets.
abbrev pub earthquakes : List Packet → ℕ
earthquakes [] = 0
earthquakes (p ∷ ps) =
    (if p.header.command == command_code earthquake then 1 else 0) + earthquakes ps

-- A message at the front of the stream is received as it was sent.
pub receive_message-wire :
    (p : Packet) (rest : List ℕ) → IsSent p → receive_message (wire p ++ rest) ≡ (some p, rest)
unfolding receive_message decode unpacking
receive_message-wire p rest s =
    let size = length-to_bytes _ in
    let enough : ltb (length (wire p ++ rest)) 16 ≡ false =
      ground (arith, length-append (wire p) rest, size) in
    let first : take 16 (wire p ++ rest) ≡ wire p =
      subst (λ n. take n (wire p ++ rest) ≡ wire p) size (take_prefix (wire p) rest) in
    let others : drop 16 (wire p ++ rest) ≡ rest =
      subst (λ n. drop n (wire p ++ rest) ≡ rest) size (drop_prefix (wire p) rest) in
    let decoded : decode (wire p) ≡ some p =
      ap (λ q. if is_valid q then some q else none) (unpacking-wire p s.bounds)
      ∙ kept p s.version in
    rw (enough, first, others, decoded) refl

-- A pass of `loop` on a message takes it and sounds the alarm for an earthquake.
pub loop-wire :
    (f : FloatOps) (s : Alarm) (p : Packet) (rest : List ℕ)
    → IsSent p
    → loop f s (wire p ++ rest) up
      ≡ some (sound s (p.header.command == command_code earthquake), rest)
unfolding loop
loop-wire f s p rest sent = elim (Bool-cases (p.header.command == command_code earthquake)) [
  | inl e ↦ rw (receive_message-wire p rest sent, e) refl
  | inr e ↦ rw (receive_message-wire p rest sent, e) refl
]

count_tone :
    (s : Alarm) (b : Bool) (n : ℕ) → (sound s b).tones + n ≡ s.tones + ((if b then 1 else 0) + n)
count_tone s true n = omega arith
count_tone s false n = omega arith

sound_keeps : (s : Alarm) (b : Bool) → (sound s b).device ≡ s.device
sound_keeps s true = refl
sound_keeps s false = refl

-- While the connection lasts, an alarm to which some packets were sent reads them all, in as many passes of
-- `loop`, and calls `tone` once for each earthquake among them; its device is as before.
pub listen-Carries :
    (f : FloatOps) (s : Alarm) (stream : List ℕ) (way : List Packet)
    → Carries stream way
    → (t : Alarm) × (listen f (length way) s stream ≡ some (t, []))
      × (t.tones ≡ s.tones + earthquakes way)
      × (t.device ≡ s.device)
unfolding listen
listen-Carries f s stream [] c = (s, ap (λ x. some (s, x)) c, omega arith, refl)
listen-Carries f s stream (p ∷ ps) (sent, (rest, e, c)) =
    let b = p.header.command == command_code earthquake in
    let (t, same, tones, device) = listen-Carries f (sound s b) rest ps c in
    (
      t,
      ap (listen f (suc (length ps)) s) e
          ∙ ap (λ o. elim o [ none ↦ none | some (u, more) ↦ listen f (length ps) u more ])
              (loop-wire f s p rest sent)
          ∙ same,
      tones ∙ count_tone s b (earthquakes ps),
      device ∙ sound_keeps s b,
    )
