-- ===== src/Device/Init.antt =====
-- arduino/TerremotoDevice/TerremotoDeviceUpdated.ino, `AccelerometerInit`, and the part of `setup` of
-- arduino/TerremotoDevice/TerremotoDevice.ino that starts the accelerometer. The bus is the list of the registers written, with
-- their values, and what it delivers.
use Prim.Native.Nat.{bit_or}
use mundosvirtuales_terremot.Base.{
  ℕ, zero, suc, ◌/◌, ◌%◌, ◌<◌, ◌≡◌, refl, sym, Bool, true, false, ◌&&◌, inl, inr, List, [], ◌∷◌,
  ◌++◌, Option, none, some, arith, bit_and, get_or, ◌==◌, ==_iff, Bool-cases, subst,
}
use mundosvirtuales_terremot.Device.Sensing.{read_from}

-- `writeTo`
unfoldable pub write_to : List (ℕ × ℕ) → ℕ → ℕ → List (ℕ × ℕ)
write_to bus address value = bus ++ (address, value) ∷ []

-- (temp[0]&0xF1) | 0x04
abbrev pub range_of : ℕ → ℕ
range_of t = bit_or (bit_and t 0xf1) 0x04

-- `AccelerometerInit`: `temp` is what the array held, `delivered` the bytes that the bus has; `none` is a write
-- past the end of `temp`.
unfoldable pub accelerometer_init : ℕ → List ℕ → Option (List (ℕ × ℕ))
unfolding write_to read_from
accelerometer_init temp delivered =
    let awake = write_to (write_to [] 0x10 0xb6) 0x0d 0x90 in
    elim (read_from (temp ∷ []) 0 delivered) [
      | none ↦ none
      | some bytes ↦ some (write_to awake 0x35 (range_of (get_or bytes 0 0)))
    ]

-- The three writes of the older sketch.
unfoldable pub start_measuring : List (ℕ × ℕ)
unfolding write_to
start_measuring = write_to (write_to (write_to [] 0x2d 0) 0x2d 16) 0x2d 8

-- Bits 1 to 3 are 2, and the other bits are those of `t`.
abbrev is_range : ℕ → ℕ → Bool
is_range t r = r / 2 % 8 == 2 && (r % 2 == t % 2 && r / 16 == t / 16)

abbrev below : ℕ → Bool
below zero = true
below (suc n) = is_range n (range_of n) && below n

checked : below 256 ≡ true
checked = refl

both : (a b : Bool) → (a && b) ≡ true → (a ≡ true) × (b ≡ true)
both true b e = (refl, e)
both false b e = cc

below_at : (n t : ℕ) → below n ≡ true → t < n → is_range t (range_of t) ≡ true
below_at zero t b h = absurd (omega arith)
below_at (suc n) t b h = elim (Bool-cases (t == n)) [
  | inl e ↦
      subst (λ k. is_range k (range_of k) ≡ true) (sym ((==_iff t n).0 e))
        (both (is_range n (range_of n)) (below n) b).0
  | inr e ↦ below_at n t (both (is_range n (range_of n)) (below n) b).1 (ground arith)
]

-- When the bus delivers the one byte that was asked for, the accelerometer is reset, woken up, and its range
-- register is written with the range of 2 g, every other bit as it was.
pub accelerometer_init_range :
    (temp t : ℕ)
    → t < 256
    → (r : ℕ) × (accelerometer_init temp (t ∷ [])
        ≡ some ((0x10, 0xb6) ∷ (0x0d, 0x90) ∷ (0x35, r) ∷ []))
      × (r / 2 % 8 ≡ 2)
      × (r % 2 ≡ t % 2)
      × (r / 16 ≡ t / 16)
unfolding accelerometer_init
accelerometer_init_range temp t h =
    let e = below_at 256 t checked h in (range_of t, refl, ground arith, ground arith, ground arith)
