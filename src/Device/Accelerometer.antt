-- ===== src/Device/Accelerometer.antt =====
-- arduino/TerremotoDevice/TerremotoDeviceUpdated.ino, `AccelerometerRead`: the two moving sums over the readings, their averages
-- LTA and STA, and the test of their ratio. `int` has 16 bits; a reading is the two bytes that the
-- three axes are computed from. `readFrom` is the bus, which is not modelled; nor is the upkeep
-- of the connection between the test and the measurement. The sums stay far from the bounds of
-- `int`, since a sum never holds more than one reading.
use mundosvirtuales_terremot.Base.{
  ℕ, zero, suc, ◌+◌, ◌-◌, ◌*◌, ◌/◌, ◌%◌, ◌^◌, Bool, List, [], ◌∷◌, Option, none, some,
  if◌then◌else◌, ltb, get_or, set, replicate,
}
use mundosvirtuales_terremot.Base.Int.{ℤ, pos, negsuc, ◌+ℤ◌, ◌-ℤ◌, ltb_ℤ, abs}

-- numReading1, numReading2 and offx
abbrev pub num_reading1 : ℕ
num_reading1 = 10

abbrev pub num_reading2 : ℕ
num_reading2 = 8

abbrev pub offx : ℤ
offx = pos 31

abbrev pub signed16 : ℕ → ℤ
signed16 w = if ltb w (2 ^ 15) then pos w else negsuc (2 ^ 16 - w - 1)

-- `>> 2` of an `int`
abbrev pub shift_right2 : ℤ → ℤ
shift_right2 (pos n) = pos (n / 4)
shift_right2 (negsuc n) = negsuc (n / 4)

-- The local `z`, from the bytes result[0] and result[1].
unfoldable pub axis : ℕ → ℕ → ℤ
axis low high = shift_right2 (signed16 ((low + high * 2 ^ 8) % 2 ^ 16)) +ℤ offx

-- reading, readIndex and total of one of the two sums.
pub record Window : Type 0 where
  pub reading : List ℕ
  pub read_index : ℕ
  pub total : ℤ

abbrev pub new_window : ℕ → Window
new_window n = record { reading = replicate n 0; read_index = 0; total = pos 0 }

-- The update of a sum. The semicolon after the condition makes the reset of the index unconditional.
unfoldable pub slide : Window → ℕ → Window
slide w a =
    let removed = w.total -ℤ pos (get_or w.reading w.read_index 0) in
    let reading = set w.reading w.read_index a in
    record {
      reading = reading;
      read_index = 0;
      total = removed +ℤ pos (get_or reading w.read_index 0);
    }

-- The quotient of two `int`, towards zero; `none` is a division by zero.
abbrev pub divide : ℤ → ℕ → ℤ
divide (pos a) n = pos (a / n)
divide (negsuc a) n = pos 0 -ℤ pos (suc a / n)

abbrev pub quotient : ℤ → ℤ → Option ℤ
quotient a (pos zero) = none
quotient a (pos (suc n)) = some (divide a (suc n))
quotient a (negsuc n) = some (pos 0 -ℤ divide a (suc n))

-- The globals of the two sums.
pub record Station : Type 0 where
  pub window1 : Window
  pub window2 : Window

-- `setup`
unfoldable pub setup : Station
setup = record { window1 = new_window num_reading1; window2 = new_window num_reading2 }

-- `ratio > 1.00`, a comparison of an integer
abbrev pub exceeds_one : Option ℤ → Option Bool
exceeds_one none = none
exceeds_one (some ratio) = some (ltb_ℤ (pos 1) ratio)

-- `AccelerometerRead`: the sums after a reading, and whether an earthquake is detected; `none` is a
-- division by zero.
unfoldable pub accelerometer_read : Station → ℕ → ℕ → Station × Option Bool
unfolding slide axis
accelerometer_read s low high =
    let z = axis low high in
    let w1 = slide s.window1 (abs z) in
    let w2 = slide s.window2 (abs z) in
    let lta = divide w1.total num_reading1 in
    let sta = divide w2.total num_reading2 in
    (record { window1 = w1; window2 = w2 }, exceeds_one (quotient sta lta))

-- `loop` over the readings that the bus delivers.
unfoldable pub loop : Station → List (ℕ × ℕ) → Station
unfolding accelerometer_read
loop s [] = s
loop s (r ∷ rs) = loop (accelerometer_read s r.0 r.1).0 rs
