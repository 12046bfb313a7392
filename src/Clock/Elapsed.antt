-- ===== src/Clock/Elapsed.antt =====
-- What the clock shows, and what becomes of a measurement when it wraps around.
use mundosvirtuales_terremot.Base.{
  Bool-cases, inl, inr, ℕ, ◌+◌, ◌-◌, ◌*◌, ◌/◌, ◌%◌, ◌^◌, ◌≤◌, ◌<◌, ◌≢◌, ◌≡◌, refl, sym, get_or, ap,
  ap₂, ◌∙◌, Bool, true, false, List, [], ◌∷◌, map, arith, All, if◌then◌else◌, ltb, ◌==◌,
}
use mundosvirtuales_terremot.Base.Int.{pos, signed32, ltb_ℤ, ◌-ℤ◌}
use mundosvirtuales_terremot.Sensors.{Measurement}
use mundosvirtuales_terremot.Alarm.{FloatOps, Tally, count_measure}
use mundosvirtuales_terremot.Clock.{Timespec, minus, get_real_system_time, get_time_since}

-- The milliseconds of a reading.
abbrev pub millis : Timespec → ℕ
millis t = t.sec * 1000 + t.nsec / 1000000

-- The results of calls in a row, from a `base`.
unfoldable pub calls : ℕ → List Timespec → List ℕ
unfolding get_real_system_time
calls base [] = []
calls base (t ∷ ts) = let (kept, shown) = get_real_system_time base t in shown ∷ calls kept ts

shown_later :
    (a b : ℕ)
    → a ≤ b
    → minus (2 ^ 32) (b % 2 ^ 32) (minus (2 ^ 32) (a % 2 ^ 32) 10000) ≡ (10000 + (b - a)) % 2 ^ 32
shown_later a b h = omega arith

calls_later :
    (base a : ℕ) (ts : List Timespec)
    → base ≢ 0
    → base ≡ minus (2 ^ 32) (a % 2 ^ 32) 10000
    → All (λ t. a ≤ millis t) ts
    → calls base ts ≡ map (λ t. (10000 + (millis t - a)) % 2 ^ 32) ts
unfolding calls get_real_system_time
calls_later base a [] n e l = refl
calls_later base a (t ∷ ts) n e (h, l) =
    let unset : (base == 0) ≡ false = ground arith in
    rw (unset, get_real_system_time)
      (ap₂ ◌∷◌ (ap (minus (2 ^ 32) (millis t % 2 ^ 32)) e ∙ shown_later a (millis t) h)
        (calls_later base a ts n e l))

-- Unless the first reading is 10000 milliseconds beyond a multiple of 2^32, the clock shows 10000 at its first
-- call, and at each later one 10000 and the milliseconds since then, modulo 2^32.
pub calls_elapsed :
    (t : Timespec) (ts : List Timespec)
    → millis t % 2 ^ 32 ≢ 10000
    → All (λ u. millis t ≤ millis u) ts
    → calls 0 (t ∷ ts) ≡ 10000 ∷ map (λ u. (10000 + (millis u - millis t)) % 2 ^ 32) ts
unfolding calls get_real_system_time
calls_elapsed t ts n l = ap₂ ◌∷◌ (shown_later (millis t) (millis t) (omega arith) ∙ omega arith) (
    calls_later (minus (2 ^ 32) (millis t % 2 ^ 32) 10000) (millis t) ts (λ e. n (omega arith)) refl
      l)

-- What the clock shows `elapsed` milliseconds after its first call.
abbrev pub shown : ℕ → ℕ
shown elapsed = (10000 + elapsed) % 2 ^ 32

young :
    (taken now : ℕ)
    → taken ≤ now
    → 10000 + now < 2 ^ 32
    → ltb_ℤ (pos (shown now) -ℤ pos (shown taken)) (pos 5000) ≡ ltb (now - taken) 5000
young taken now h hi = ground arith

-- Whether a measurement of the time `taken` is counted at the time `now`.
abbrev pub Counts : FloatOps → ℕ → ℕ → ℕ → ℕ → Tally → Bool → Type 0
Counts f taken now intensity confidence t counted =
    let m : Measurement = record {
      intensity = intensity;
      timestamp = pos taken;
      confidence = confidence;
    } in
    ltb t.valid_sensors (count_measure f (pos now) m t).valid_sensors ≡ counted

count_if :
    (f : FloatOps) (taken now intensity confidence : ℕ) (t : Tally) (b : Bool)
    → f.above_half confidence ≡ true
    → ltb_ℤ (pos (shown now) -ℤ pos (shown taken)) (pos 5000) ≡ b
    → Counts f (shown taken) (shown now) intensity confidence t b
unfolding count_measure
count_if f taken now intensity confidence t b trusted e = rw (e, trusted, count_measure) (counted b)
  where
    counted :
        (c : Bool)
        → ltb t.valid_sensors
            (if c
              then record {
                intensity = f.plus t.intensity intensity;
                valid_sensors = t.valid_sensors + 1;
              }
              else t).valid_sensors
          ≡ c
    counted true = ground arith
    counted false = ground arith

counted_until :
    (f : FloatOps) (taken now intensity confidence : ℕ) (t : Tally)
    → taken ≤ now
    → now < 2 ^ 32 + taken + 5000
    → 10000 + taken < 2 ^ 32
    → f.above_half confidence ≡ true
    → Counts f
        (shown taken)
        (shown now)
        intensity
        confidence
        t
        (if ltb (10000 + now) (2 ^ 32) then ltb (now - taken) 5000 else true)
counted_until f taken now intensity confidence t h near lo trusted =
    elim (Bool-cases (ltb (10000 + now) (2 ^ 32))) [
      | inl e ↦ rw e (
          count_if f taken now intensity confidence t (ltb (now - taken) 5000) trusted
            (young taken now h (ground arith)))
      | inr e ↦ rw e (count_if f taken now intensity confidence t true trusted (ground arith))
    ]

-- A measurement that `getRealSystemTime` dates at `u`, and that a pass of the alarm request meets when the same
-- function reads `v`, in a program that has called it first at `first`; the measurement is trusted. While the clock has
-- not wrapped around, it is counted exactly if `v` is less than five seconds after `u`. Once the clock has wrapped
-- around, it is counted whatever its age, until the clock shows again the time of the measurement and five
-- seconds more. The `long` of the difference has 64 bits; the first reading is not 10000 milliseconds beyond a
-- multiple of 2 ^ 32, and the clock has not wrapped around at `u`.
pub count_measure-get_real_system_time :
    (f : FloatOps) (first u v : Timespec) (intensity confidence : ℕ) (t : Tally)
    → millis first % 2 ^ 32 ≢ 10000
    → millis first ≤ millis u
    → millis u ≤ millis v
    → millis v < 2 ^ 32 + millis u + 5000
    → 10000 + (millis u - millis first) < 2 ^ 32
    → f.above_half confidence ≡ true
    → let (base, _) = get_real_system_time 0 first in
      let (kept, taken) = get_real_system_time base u in
      let (_, now) = get_real_system_time kept v in
      Counts f taken now intensity confidence t (
        if ltb (10000 + (millis v - millis first)) (2 ^ 32)
        then ltb (millis v - millis u) 5000
        else true)
unfolding calls
count_measure-get_real_system_time f first u v intensity confidence t unset h k near lo trusted =
    let e = calls_elapsed first (u ∷ v ∷ []) unset (h, (omega arith, tt)) in
    let base = (get_real_system_time 0 first).0 in
    let kept = (get_real_system_time base u).0 in
    let age : (millis v - millis first) - (millis u - millis first) ≡ millis v - millis u =
      omega arith in
    let taken : (get_real_system_time base u).1 ≡ shown (millis u - millis first) =
      ap (λ l. get_or l 1 0) e in
    let now : (get_real_system_time kept v).1 ≡ shown (millis v - millis first) =
      ap (λ l. get_or l 2 0) e in
    rw (taken, now, sym age)
      (counted_until f (millis u - millis first) (millis v - millis first) intensity confidence t
        (omega arith) (omega arith) lo trusted)

-- `getTimeSince` is the time elapsed, for a time less than 2^31 milliseconds ago, also when the clock wraps
-- around between.
pub get_time_since-shown :
    (taken now : ℕ)
    → taken ≤ now
    → now - taken < 2 ^ 31
    → get_time_since (shown now) (shown taken) ≡ pos (now - taken)
unfolding get_time_since
get_time_since-shown taken now h near =
    let gone : minus (2 ^ 32) (shown now) (shown taken) ≡ now - taken = omega arith in
    let small : ltb (now - taken) (2 ^ 31) ≡ true = ground arith in ap signed32 gone ∙ rw small refl
