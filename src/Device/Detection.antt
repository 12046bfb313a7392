-- ===== src/Device/Detection.antt =====
-- What the accelerometer's sums amount to.
use native.Mathlib.Nat.{le-div_iff_mul-le}
use mundosvirtuales_terremot.Base.{
  ℕ, zero, suc, ◌*◌, ◌/◌, ◌≤◌, ◌<◌, ◌≡◌, refl, ap, ap₂, ◌∙◌, false, ◌&&◌, List, [], ◌∷◌, none, some,
  arith, Bool-cases, inl, inr, if◌then◌else◌, ltb, leb, length, get_or, set, length-set,
  get_or-set_self,
}
use mundosvirtuales_terremot.Base.Int.{pos, ◌+ℤ◌, ◌-ℤ◌, ltb_ℤ, abs}
use mundosvirtuales_terremot.Device.Accelerometer.{
  Window, Station, axis, slide, divide, quotient, exceeds_one, setup, accelerometer_read, loop,
  num_reading1, num_reading2,
}

-- The sum is the one reading in the first place.
pub record Latest (w : Window) : Type 0 where
  pub room : 0 < length w.reading
  pub first : w.read_index ≡ 0
  pub sum : w.total ≡ pos (get_or w.reading 0 0)

cancel : (x y : ℕ) → (pos x -ℤ pos x) +ℤ pos y ≡ pos y
cancel x y = ground arith

pub slide-Latest :
    (w : Window) (a : ℕ) → Latest w → Latest (slide w a) × ((slide w a).total ≡ pos a)
unfolding slide
slide-Latest w a l = (
  record {
    room = rw (l.first, length-set w.reading 0 a) l.room;
    first = refl;
    sum = rw (l.first, l.sum, cancel (get_or w.reading 0 0) (get_or (set w.reading 0 a) 0 0)) refl;
  },
  rw (l.first, l.sum, get_or-set_self w.reading 0 a 0 l.room, cancel (get_or w.reading 0 0) a) refl,
)

-- A quotient is above one from twice the divisor on.
pub above_one : (x b : ℕ) → ltb 1 (x / suc b) ≡ leb (2 * suc b) x
above_one x b = elim (Bool-cases (leb (2 * suc b) x)) [
  | inl e ↦
      let h : 2 * suc b ≤ x = ground arith in
      ground (arith, (le-div_iff_mul-le {k = suc b} {x = 2} {y = x} (omega arith)).1 h)
  | inr e ↦ elim (Bool-cases (ltb 1 (x / suc b))) [
    | inr n ↦ rw (e, n) refl
    | inl n ↦
        let h : 2 ≤ x / suc b = ground arith in
        ground (arith, (le-div_iff_mul-le {k = suc b} {x = 2} {y = x} (omega arith)).0 h)
  ]
]

pub ltb_pos : (n : ℕ) → ltb_ℤ (pos 1) (pos n) ≡ ltb 1 n
ltb_pos n = ground arith

detects :
    (a b : ℕ)
    → a / 10 ≡ b
    → exceeds_one (quotient (pos (a / 8)) (pos b))
      ≡ (if ltb a 10 then none else some (leb 16 a && ltb a 20))
detects a zero e = ground arith
detects a (suc b) e =
    let h : ltb a 10 ≡ false = ground arith in
    let k : leb (2 * suc b) (a / 8) ≡ (leb 16 a && ltb a 20) = ground arith in
    rw h (ap some (ltb_pos (a / 8 / suc b) ∙ above_one (a / 8) b ∙ k))

-- Both sums are the one reading in their first place.
abbrev pub Forgetful : Station → Type 0
Forgetful s = Latest s.window1 × Latest s.window2

loop-Forgetful : (s : Station) (readings : List (ℕ × ℕ)) → Forgetful s → Forgetful (loop s readings)
unfolding loop accelerometer_read
loop-Forgetful s [] l = l
loop-Forgetful s (r ∷ rs) l = loop-Forgetful (accelerometer_read s r.0 r.1).0 rs (
  (slide-Latest s.window1 (abs (axis r.0 r.1)) l.0).0,
  (slide-Latest s.window2 (abs (axis r.0 r.1)) l.1).0,
)

setup-Forgetful : Forgetful setup
unfolding setup
setup-Forgetful = (
  record { room = omega arith; first = refl; sum = refl },
  record { room = omega arith; first = refl; sum = refl },
)

-- After any readings, the detection depends on the last reading only: the averages divide by zero when
-- the absolute value of the axis is below 10, and otherwise an earthquake is detected exactly
-- when it is from 16 to 19. Stronger readings are never detected.
pub accelerometer_read-loop :
    (readings : List (ℕ × ℕ)) (low high : ℕ)
    → let a = abs (axis low high) in
      (accelerometer_read (loop setup readings) low high).1
      ≡ (if ltb a 10 then none else some (leb 16 a && ltb a 20))
unfolding accelerometer_read
accelerometer_read-loop readings low high =
    let (l1, l2) = loop-Forgetful setup readings setup-Forgetful in
    let a = abs (axis low high) in
    let e1 = (slide-Latest (loop setup readings).window1 a l1).1 in
    let e2 = (slide-Latest (loop setup readings).window2 a l2).1 in
    ap₂ (λ sta lta. exceeds_one (quotient (divide sta num_reading2) (divide lta num_reading1))) e2
      e1
    ∙ detects a (a / 10) refl
