-- ===== src/Device/Utterance.antt =====
-- arduino/TerremotoDevice/TerremotoDeviceUpdated.ino and arduino/TerremotoDevice/TerremotoDevice.ino: the messages that a
-- sensor's sketch writes in its life.
use mundosvirtuales_terremot.Base.{
  ℕ, ◌<◌, ◌^◌, refl, subst, inl, inr, List, [], ◌∷◌, ◌++◌, Option, none, some, All, All-append,
  Option-cases,
}
use mundosvirtuales_terremot.Base.Int.{ℤ, pos, ltb_ℤ}
use mundosvirtuales_terremot.Packet.{alive}
use mundosvirtuales_terremot.Handshake.{FloatOps}
use mundosvirtuales_terremot.Device.Connecting.{alive_message, reconnect}
use mundosvirtuales_terremot.Device.Speaking.{
  Speaking, Said, SaidIf, SpeakingIf, Tells, report-Tells, reconnect-Speaking, send_message-Said,
}
use mundosvirtuales_terremot.Device.Sensing.{
  Sensor, Reading, undefined, reconnecting, finished, sense,
}
use mundosvirtuales_terremot.Device.Legacy.{word, average, slide_both, read_legacy}
use mundosvirtuales_terremot.Device.Accelerometer.{axis, accelerometer_read}
use mundosvirtuales_terremot.Device.Life.{
  Pass, read_pass, LegacyPass, read_legacy_pass, Event, ticking, passing, Life, going, dialing,
  failed, message, live,
}

pub sense-Tells :
    (f : FloatOps) (intensity : ℤ → ℕ) (id : ℤ) (s : Sensor) (p : Pass)
    → ((z : ℤ) → intensity z < 2 ^ 32)
    → Speaking id s.device
    → Tells id (read_pass f intensity s p)
unfolding sense
sense-Tells f intensity id s p small t =
    elim (Option-cases (accelerometer_read s.station p.low p.high).1) [
      | inl n ↦ rw (n, sense) tt
      | inr (shaking, e) ↦ elim (Option-cases (reconnect f s.device p.upkeep)) [
        | inl n ↦ rw (e, n, sense) tt
        | inr (d, m) ↦
            rw (e, m, sense)
              (report-Tells id
                (record s { device = d; station = (accelerometer_read s.station p.low p.high).0 })
                (intensity (axis p.low p.high)) p.is_connected shaking
                (subst (SpeakingIf id) m (reconnect-Speaking f id s.device p.upkeep t)) (small _))
      ]
    ]

pub read_legacy-Tells :
    (f : FloatOps) (id : ℤ) (s : Sensor) (p : LegacyPass)
    → Speaking id s.device
    → Tells id (read_legacy_pass f s p)
unfolding read_legacy
read_legacy-Tells f id s p t = by_buff p.buff
  where
    by_buff : (buff : List ℕ) → Tells id (read_legacy f s buff p.upkeep p.is_connected)
    by_buff (x0 ∷ x1 ∷ y0 ∷ y1 ∷ z0 ∷ z1 ∷ []) =
        elim (Option-cases (average (word x0 x1) (word y0 y1))) [
          | inl n ↦ rw (n, read_legacy) tt
          | inr (a, e) ↦ elim (Option-cases (slide_both s.station a).1) [
            | inl n ↦ rw (e, n, read_legacy) tt
            | inr (r, g) ↦ elim (Option-cases (reconnect f s.device p.upkeep)) [
              | inl n ↦ rw (e, g, n, read_legacy) tt
              | inr (d, m) ↦
                  rw (e, g, m, read_legacy)
                    (report-Tells id (record s { device = d; station = (slide_both s.station a).0 })
                      (f.of_int r) p.is_connected (ltb_ℤ (pos 1) r)
                      (subst (SpeakingIf id) m (reconnect-Speaking f id s.device p.upkeep t))
                      (f.of_int-lt r))
            ]
          ]
        ]
    by_buff _ = tt

-- The messages of a life are all said under the identification, and so will be the next ones.
abbrev pub Utters : ℤ → Life → Type 0
Utters id (going t messages) = Speaking id t.device × All (Said id) messages
Utters id (dialing messages) = All (Said id) messages
Utters id (failed messages) = All (Said id) messages

-- What a null pointer reads for the payload of `alive` has 32 bits.
abbrev pub Fits : {P : Type 0} → Event P → Type 0
Fits (ticking junk is_connected) = junk < 2 ^ 32
Fits (passing p) = Unit

message-Said :
    (id : ℤ) (written : List (List ℕ)) (bytes : Option (List ℕ))
    → All (Said id) written
    → SaidIf id bytes
    → All (Said id) (written ++ message bytes)
message-Said id written none all t = All-append (Said id) written [] all tt
message-Said id written (some bytes) all t = All-append (Said id) written (bytes ∷ []) all (t, tt)

module _ {P : Type 0} (id : ℤ) (read : Sensor → P → Reading)
    (tells : (s : Sensor) (p : P) → Speaking id s.device → Tells id (read s p)) where
  pub live-Utters :
      (s : Sensor) (written : List (List ℕ)) (events : List (Event P))
      → Speaking id s.device
      → All (Said id) written
      → All Fits events
      → Utters id (live read s written events)
  unfolding live alive_message
  live-Utters s written [] t all fits = (t, all)
  live-Utters s written (ticking junk is_connected ∷ events) t all (small, fits) =
      let (t', told) =
        send_message-Said id s.device alive none junk is_connected t small (inl refl) in
      live-Utters _ _ events t' (message-Said id written _ all told) fits
  live-Utters s written (passing p ∷ events) t all (_, fits) =
      by_reading (read s p) (tells s p t) λ u told t' all'. live-Utters u told events t' all' fits
    where
      by_reading :
          (r : Reading)
          → Tells id r
          → ((u : Sensor) (told : List (List ℕ))
              → Speaking id u.device
              → All (Said id) told
              → Utters id (live read u told events))
          → Utters id (elim r [
            | undefined ↦ failed written
            | reconnecting ↦ dialing written
            | finished u bytes ↦ live read u (written ++ message bytes) events
          ])
      by_reading undefined u later = all
      by_reading reconnecting u later = all
      by_reading (finished u bytes) (t', told) later =
          later u (written ++ message bytes) t' (message-Said id written bytes all told)
