-- ===== src/Device/Legacy.antt =====
-- arduino/TerremotoDevice/TerremotoDevice.ino: the older sketch of the sensor, with its `loop`. Its connection is that of the
-- other sketches. `int` has 16 bits, and an overflow of it is undefined.
use mundosvirtuales_terremot.Base.{
  ℕ, ◌+◌, ◌*◌, ◌%◌, ◌^◌, Bool, List, [], ◌∷◌, Option, none, some, if◌then◌else◌, ltb,
}
use mundosvirtuales_terremot.Base.Int.{ℤ, pos, ◌+ℤ◌, ltb_ℤ, abs}
use mundosvirtuales_terremot.Handshake.{FloatOps}
use mundosvirtuales_terremot.Device.Accelerometer.{
  Station, signed16, slide, divide, quotient, num_reading1, num_reading2,
}
use mundosvirtuales_terremot.Device.Connecting.{Upkeep, reconnect}
use mundosvirtuales_terremot.Device.Sensing.{Sensor, Reading, undefined, reconnecting, report}

-- (((int)high) << 8) | low
abbrev pub word : ℕ → ℕ → ℤ
word low high = signed16 ((low + high * 2 ^ 8) % 2 ^ 16)

-- `average`, the absolute value of x + y/2; `none` is an overflow.
unfoldable pub average : ℤ → ℤ → Option ℕ
average x y = let sum = x +ℤ divide y 2 in if ltb (abs sum) (2 ^ 15) then some (abs sum) else none

abbrev pub abs_of : Option ℤ → Option ℤ
abs_of none = none
abs_of (some a) = some (pos (abs a))

-- Both sums after a reading, and `ratio`; `none` is a division by zero.
unfoldable pub slide_both : Station → ℕ → Station × Option ℤ
unfolding slide
slide_both s a =
    let w1 = slide s.window1 a in
    let w2 = slide s.window2 a in
    let lta = pos (abs (divide w1.total num_reading1)) in
    let sta = pos (abs (divide w2.total num_reading2)) in
    (record { window1 = w1; window2 = w2 }, abs_of (quotient sta lta))

-- `loop` on the six bytes of `buff`; the payload of the message is the ratio.
unfoldable pub read_legacy : FloatOps → Sensor → List ℕ → Upkeep → Bool → Reading
unfolding slide_both reconnect average
read_legacy f s (x0 ∷ x1 ∷ y0 ∷ y1 ∷ z0 ∷ z1 ∷ []) upkeep is_connected =
    elim (average (word x0 x1) (word y0 y1)) [
      | none ↦ undefined
      | some a ↦
          let (station, ratio) = slide_both s.station a in
          elim ratio [
            | none ↦ undefined
            | some r ↦ elim (reconnect f s.device upkeep) [
              | none ↦ reconnecting
              | some d ↦
                  report (record s { device = d; station = station }) (f.of_int r) is_connected
                    (ltb_ℤ (pos 1) r)
            ]
          ]
    ]
read_legacy f s buff upkeep is_connected = undefined
