-- ===== src/Alarm/Laws.antt =====
-- When an alert is sent, and what the clients read of it.
use native.Mathlib.Nat.{le-div_iff_mul-le, div-eq_of_lt}
use mundosvirtuales_terremot.Base.{
  ℕ, zero, suc, ◌+◌, ◌/◌, ◌≤◌, ◌<◌, ◌^◌, ◌≡◌, refl, ap, ◌∙◌, Bool, true, false, ◌&&◌, List, [], ◌∷◌,
  Option, none, some, map, arith, Bool-cases, inl, inr, if◌then◌else◌, ltb, get_or, All,
}
use mundosvirtuales_terremot.Base.Int.{ℤ, pos, ◌-ℤ◌, ltb_ℤ}
use mundosvirtuales_terremot.Packet.{
  is_valid, earthquake, command_code, number, packing, unpacking, of_bytes, to_bytes,
}
use mundosvirtuales_terremot.Packet.Laws.{unpacking-wire, to_bytes-packing, number-IsPacket}
use mundosvirtuales_terremot.Sensors.{new_measurement, ListSensors}
use mundosvirtuales_terremot.Alarm.{
  FloatOps, Tally, new_tally, count_measure, count_measures, exceeds_half, pass, alert_packet,
  send_alert,
}

abbrev pub is_some : Option ℕ → Bool
is_some none = false
is_some (some m) = true

module _ (f : FloatOps) (s : ListSensors) (time : ℤ) where
  -- The measurement in slot `i` is less than five seconds old and trusted.
  abbrev pub counts : ℕ → Bool
  counts i =
      let m = get_or s.queue i new_measurement in
      ltb_ℤ (time -ℤ m.timestamp) (pos 5000) && f.above_half m.confidence

  -- How many of the slots from `i` to below `i + left` count.
  abbrev pub count_from : ℕ → ℕ → ℕ
  count_from zero i = 0
  count_from (suc left) i = (if counts i then 1 else 0) + count_from left (i + 1)

  count_measure-count :
      (i : ℕ) (t : Tally)
      → (count_measure f time (get_or s.queue i new_measurement) t).valid_sensors
        ≡ (if counts i then 1 else 0) + t.valid_sensors
  unfolding count_measure
  count_measure-count i t = ground arith

  count_measures-count :
      (left i : ℕ) (t : Tally)
      → (count_measures f s time left i t).valid_sensors ≡ count_from left i + t.valid_sensors
  unfolding count_measures
  count_measures-count zero i t = omega arith
  count_measures-count (suc left) i t = omega (
    arith,
    count_measures-count left (i + 1) (count_measure f time (get_or s.queue i new_measurement) t),
    count_measure-count i t,
  )

  count_from_le : (left i : ℕ) → count_from left i ≤ left
  count_from_le zero i = omega arith
  count_from_le (suc left) i = elim (Bool-cases (counts i)) [
    | inl e ↦ rw e (omega (arith, count_from_le left (i + 1)))
    | inr e ↦ rw e (omega (arith, count_from_le left (i + 1)))
  ]

  quotient_positive : (v a : ℕ) → ltb 0 (v / suc a) ≡ ltb a v
  quotient_positive v a = elim (Bool-cases (ltb a v)) [
    | inl e ↦
        let h : a < v = ground arith in
        ground
          (arith, (le-div_iff_mul-le {k = suc a} {x = 1} {y = v} (omega arith)).1 (omega arith))
    | inr e ↦ let h : v < suc a = ground arith in rw (div-eq_of_lt h, e) refl
  ]

  alerts_if :
      (total v a m : ℕ)
      → v ≤ total
      → is_some (if ltb 0 total && ltb 0 (v / suc a) then some m else none) ≡ ltb a v
  alerts_if total v a m h = elim (Bool-cases (ltb a v)) [
    | inl e ↦ let c : ltb 0 total ≡ true = ground arith in rw (c, quotient_positive v a, e) refl
    | inr e ↦ rw (quotient_positive v a, e) (nothing (ltb 0 total))
  ]
    where
      nothing : (b : Bool) → is_some (if b && false then some m else none) ≡ false
      nothing true = refl
      nothing false = refl

  -- With a positive number of active sensors, a pass of `run` sends an alert exactly when at least as
  -- many measurements are fresh and trusted as sensors are active, although the source compares
  -- their share with one half.
  pub pass_alerts :
      (a : ℕ)
      → s.active_sensors ≡ pos (suc a)
      → is_some (pass f s time) ≡ ltb a (count_from s.max_size 0)
  unfolding pass
  pass_alerts a e =
      ap
        (λ k.
          is_some
            (if ltb 0 s.max_size && exceeds_half v k then some (f.over t.intensity v) else none))
        e
      ∙ alerts_if s.max_size v a (f.over t.intensity v)
          (omega (arith, same, count_from_le s.max_size 0))
      ∙ ap (ltb a) same
    where
      t : Tally
      t = count_measures f s time s.max_size 0 new_tally

      v : ℕ
      v = t.valid_sensors

      same : v ≡ count_from s.max_size 0
      same = omega (arith, count_measures-count s.max_size 0 new_tally)

-- The message that a client is sent stands for an earthquake of the given mean intensity.
abbrev pub Delivers : ℕ → ℕ × List ℕ → Type 0
Delivers mean m =
    let p = unpacking (of_bytes m.1) in
    (p.header.command ≡ command_code earthquake) × (p.payload ≡ mean) × (is_valid p ≡ true)

alert-Delivers :
    (mean index ref : ℕ)
    → mean < 2 ^ 32
    → Delivers mean (ref, to_bytes (packing index (alert_packet mean)).0)
unfolding number
alert-Delivers mean index ref h =
    let e =
      ap (λ b. unpacking (of_bytes b)) (to_bytes-packing index (alert_packet mean))
      ∙ unpacking-wire (number index (alert_packet mean)).0
          (number-IsPacket index (alert_packet mean) (omega arith)) in
    rw e (refl, refl, refl)

-- For a mean intensity of 32 bits, `sendAlert` hands one message to each client of the queue, in the
-- order of the queue. A client that unpacks its message reads a valid earthquake packet with
-- the mean intensity.
pub send_alert-Delivers :
    (mean index : ℕ) (refs : List ℕ)
    → mean < 2 ^ 32
    → let (messages, _) = send_alert mean index refs in
      (map (λ m. m.0) messages ≡ refs) × All (Delivers mean) messages
unfolding send_alert
send_alert-Delivers mean index [] h = (refl, tt)
send_alert-Delivers mean index (ref ∷ refs) h =
    let (same, all) = send_alert-Delivers mean (packing index (alert_packet mean)).1 refs h in
    (ap (◌∷◌ ref) same, (alert-Delivers mean index ref h, all))
