-- ===== src/Device/Tremor.antt =====
-- What arduino/TerremotoDevice/TerremotoDevice.ino detects.
use mundosvirtuales_terremot.Base.{
  ℕ, suc, ◌+◌, ◌-◌, ◌*◌, ◌/◌, ◌≡◌, refl, ap, ap₂, ◌∙◌, Bool, true, false, ◌&&◌, inl, inr, [], ◌∷◌,
  none, some, arith, Bool-cases, if◌then◌else◌, ltb, leb,
}
use mundosvirtuales_terremot.Base.Int.{pos, ltb_ℤ, abs}
use mundosvirtuales_terremot.Handshake.{FloatOps}
use mundosvirtuales_terremot.Device.Accelerometer.{
  Station, divide, quotient, num_reading1, num_reading2,
}
use mundosvirtuales_terremot.Device.Detection.{Forgetful, slide-Latest, above_one, ltb_pos}
use mundosvirtuales_terremot.Device.Connecting.{up, reconnect}
use mundosvirtuales_terremot.Device.Sensing.{Sensor, undefined, report}
use mundosvirtuales_terremot.Device.Legacy.{word, average, abs_of, slide_both, read_legacy}

-- The ratio of the two averages of a single reading.
ratio_of :
    (a : ℕ)
    → abs_of (quotient (pos (a / 8)) (pos (a / 10)))
      ≡ (if ltb a 10 then none else some (pos (a / 8 / (a / 10))))
ratio_of a = elim (Bool-cases (ltb a 10)) [
  | inl e ↦ let z : a / 10 ≡ 0 = ground arith in rw (e, z) refl
  | inr e ↦
      let z : a / 10 ≡ suc (a / 10 - 1) = ground arith in
      rw (e, z) (ap (λ n. some (pos n)) (omega arith))
]

slide_both-Forgetful :
    (s : Station) (a : ℕ)
    → Forgetful s
    → Forgetful (slide_both s a).0
      × ((slide_both s a).1 ≡ (if ltb a 10 then none else some (pos (a / 8 / (a / 10)))))
unfolding slide_both
slide_both-Forgetful s a (l1, l2) =
    let (k1, e1) = slide-Latest s.window1 a l1 in
    let (k2, e2) = slide-Latest s.window2 a l2 in
    let plain : (n : ℕ) → pos (n + 0) ≡ pos n = λ n. ap pos (omega arith) in
    (
      (k1, k2),
      ap₂
            (λ sta lta. abs_of (
              quotient (pos (abs (divide sta num_reading2))) (pos (abs (divide lta num_reading1)))))
            e2 e1
          ∙ ap₂ (λ sta lta. abs_of (quotient sta lta)) (plain (a / 8)) (plain (a / 10))
          ∙ ratio_of a,
    )

-- From 10 on, the ratio is above one exactly from 16 to 19.
shakes :
    (a : ℕ) → ltb a 10 ≡ false → ltb_ℤ (pos 1) (pos (a / 8 / (a / 10))) ≡ (leb 16 a && ltb a 20)
shakes a h =
    let z : a / 10 ≡ suc (a / 10 - 1) = ground arith in
    let k : leb (2 * suc (a / 10 - 1)) (a / 8) ≡ (leb 16 a && ltb a 20) = ground arith in
    ltb_pos (a / 8 / (a / 10)) ∙ ap (λ n. ltb 1 (a / 8 / n)) z ∙ above_one (a / 8) (a / 10 - 1) ∙ k

ratio_two : (a : ℕ) → (leb 16 a && ltb a 20) ≡ true → a / 8 / (a / 10) ≡ 2
ratio_two a h =
    let n : a / 8 ≡ 2 = ground arith in let d : a / 10 ≡ 1 = ground arith in rw (n, d) refl

same_report :
    (f : FloatOps) (s : Sensor) (c : Bool) (a : ℕ)
    → report s (f.of_int (pos (a / 8 / (a / 10)))) c (leb 16 a && ltb a 20)
      ≡ report s (f.of_int (pos 2)) c (leb 16 a && ltb a 20)
same_report f s c a = elim (Bool-cases (leb 16 a && ltb a 20)) [
  | inl e ↦ ap (λ n. report s (f.of_int (pos n)) c (leb 16 a && ltb a 20)) (ratio_two a e)
  | inr e ↦ rw e refl
]

-- While both sums hold one reading, as after `setup`, a reading whose `average` is `a` leaves them so. The
-- pass divides by zero when `a` is below 10; otherwise an earthquake is detected exactly when `a`
-- is from 16 to 19, and the ratio that is sent is always 2.
pub read_legacy-report :
    (f : FloatOps) (s : Sensor) (x0 x1 y0 y1 z0 z1 a : ℕ) (c : Bool)
    → Forgetful s.station
    → average (word x0 x1) (word y0 y1) ≡ some a
    → let station = (slide_both s.station a).0 in
      Forgetful station
      × (read_legacy f s (x0 ∷ x1 ∷ y0 ∷ y1 ∷ z0 ∷ z1 ∷ []) up c ≡ (
          if ltb a 10
          then undefined
          else report (record s { station = station }) (f.of_int (pos 2)) c (leb 16 a && ltb a 20)))
unfolding read_legacy reconnect
read_legacy-report f s x0 x1 y0 y1 z0 z1 a c l e =
    let (k, ratio) = slide_both-Forgetful s.station a l in
    (
      k,
      elim (Bool-cases (ltb a 10)) [
        | inl h ↦ rw (e, h, read_legacy) (rw (ratio, h) refl)
        | inr h ↦
            rw (e, h, read_legacy)
              (rw (ratio, h, shakes a h)
                (same_report f (record s { station = (slide_both s.station a).0 }) c a))
      ],
    )
