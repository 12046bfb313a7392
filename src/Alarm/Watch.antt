-- ===== src/Alarm/Watch.antt =====
-- src/server/RequestAlarm.cpp, `run`: the loop of the thread that warns the alarms. A beat is a test of the loop: whether m_stop is set,
-- and what the body finds after its sleep, namely the clock, the list of sensors and the queue of clients, which the
-- other threads change in between. A list of beats that ends while the loop runs is a thread that goes on.
use mundosvirtuales_terremot.Base.{
  ℕ, zero, suc, ◌<◌, ◌≡◌, refl, ap, ap₂, ◌∙◌, Bool, true, false, ◌&&◌, List, [], ◌∷◌, ◌++◌, Option,
  none, some, map, ◌^◌, ◌||◌, All-imp, All-append, arith, if◌then◌else◌, ltb, All, Bool-cases, inl,
  inr,
}
use mathlib.Core.List.{map-append}
use mundosvirtuales_terremot.Base.Int.{ℤ, pos, negsuc}
use mundosvirtuales_terremot.Sensors.{ListSensors}
use mundosvirtuales_terremot.Alarm.{FloatOps, pass, send_alert}
use mundosvirtuales_terremot.Alarm.Laws.{
  is_some, count_from, pass_alerts, Delivers, send_alert-Delivers,
}

pub record Beat : Type 0 where
  pub is_stopped : Bool
  pub time : ℤ
  pub sensors : ListSensors
  pub clients : List ℕ

-- The messages so far, the request index, and whether the thread has returned.
pub record Watch : Type 0 where
  pub messages : List (ℕ × List ℕ)
  pub index : ℕ
  pub is_ended : Bool

-- The end of the body: an alert to the clients, or nothing.
abbrev pub warn : Option ℕ → ℕ → List ℕ → List (ℕ × List ℕ) × ℕ
warn none index clients = ([], index)
warn (some mean) index clients = send_alert mean index clients

some_if-lt : (b : Bool) (x m : ℕ) → x < 2 ^ 32 → (if b then some x else none) ≡ some m → m < 2 ^ 32
some_if-lt b x m h e = ground arith

-- With `n` measurements that are fresh and trusted, some sensor is active and no more than `n` are.
abbrev pub outvotes : ℤ → ℕ → Bool
outvotes (pos zero) n = false
outvotes (pos (suc a)) n = ltb a n
outvotes (negsuc a) n = false

nobody : (b : Bool) (m : ℕ) → is_some (if b && false then some m else none) ≡ false
nobody true m = refl
nobody false m = refl

-- A message stands for an earthquake of some mean intensity that the arithmetic yields.
abbrev pub Warns : ℕ × List ℕ → Type 0
Warns m = (mean : ℕ) × Delivers mean m

warn_cases :
    (mean : Option ℕ) (index : ℕ) (clients : List ℕ)
    → ((m : ℕ) → (mean ≡ some m) → m < 2 ^ 32)
    → (map (λ m. m.0) (warn mean index clients).0 ≡ (if is_some mean then clients else []))
      × All Warns (warn mean index clients).0
warn_cases none index clients h = (refl, tt)
warn_cases (some mean) index clients h =
    let (same, all) = send_alert-Delivers mean index clients (h mean refl) in
    (same, All-imp (Delivers mean) _ (λ m d. (mean, d)) all)

-- Some test finds m_stop set.
abbrev pub is_halted : List Beat → Bool
is_halted [] = false
is_halted (b ∷ bs) = b.is_stopped || is_halted bs

module _ (f : FloatOps) where
  -- The body of the loop.
  abbrev pub beat : ℕ → Beat → List (ℕ × List ℕ) × ℕ
  beat index b = warn (pass f b.sensors b.time) index b.clients

  -- `run`
  unfoldable pub watch : ℕ → List Beat → Watch
  unfolding send_alert pass
  watch index [] = record { messages = []; index = index; is_ended = false }
  watch index (b ∷ bs) =
      let (messages, index') = beat index b in
      let rest = watch index' bs in
      if b.is_stopped
      then record { messages = []; index = index; is_ended = true }
      else record rest { messages = messages ++ rest.messages }

  abbrev pub is_alarming : ListSensors → ℤ → Bool
  is_alarming s time = outvotes s.active_sensors (count_from f s time s.max_size 0)

  pass-outvotes :
      (s : ListSensors) (time : ℤ) (active : ℤ)
      → s.active_sensors ≡ active
      → is_some (pass f s time) ≡ outvotes active (count_from f s time s.max_size 0)
  unfolding pass
  pass-outvotes s time (pos zero) e = rw e (nobody (ltb 0 s.max_size) _)
  pass-outvotes s time (pos (suc a)) e = pass_alerts f s time a e
  pass-outvotes s time (negsuc a) e = rw e (nobody (ltb 0 s.max_size) _)

  -- The clients that a body warns.
  abbrev pub warned : Beat → List ℕ
  warned b = if is_alarming b.sensors b.time then b.clients else []

  -- The clients that the bodies up to the stop warn.
  abbrev pub warned_all : List Beat → List ℕ
  warned_all [] = []
  warned_all (b ∷ bs) = if b.is_stopped then [] else warned b ++ warned_all bs

  pub pass-lt :
      (s : ListSensors) (time : ℤ) (m : ℕ)
      → ((a n : ℕ) → f.over a n < 2 ^ 32)
      → pass f s time ≡ some m
      → m < 2 ^ 32
  unfolding pass
  pass-lt s time m h e = some_if-lt _ _ m (h _ _) e

  beat_cases :
      (index : ℕ) (b : Beat)
      → ((a n : ℕ) → f.over a n < 2 ^ 32)
      → (map (λ m. m.0) (beat index b).0 ≡ warned b) × All Warns (beat index b).0
  beat_cases index b h =
      let (same, all) =
        warn_cases (pass f b.sensors b.time) index b.clients
          (λ m e. pass-lt b.sensors b.time m h e) in
      (same ∙ ap (λ c. if c then b.clients else []) (pass-outvotes b.sensors b.time _ refl), all)

  -- If the arithmetic yields 32 bits: whom the thread warns, beat after beat up to its stop, are all clients of
  -- the queue if some sensor is active and at least as many measurements are fresh and trusted as sensors are active, and
  -- otherwise nobody. All its messages are read as valid earthquake packets, and it returns exactly if
  -- some test finds m_stop set.
  pub watch-warned_all :
      (index : ℕ) (bs : List Beat)
      → ((a n : ℕ) → f.over a n < 2 ^ 32)
      → let w = watch index bs in
        (map (λ m. m.0) w.messages ≡ warned_all bs)
        × All Warns w.messages
        × (w.is_ended ≡ is_halted bs)
  unfolding watch
  watch-warned_all index [] h = (refl, tt, refl)
  watch-warned_all index (b ∷ bs) h =
      let (same, all) = beat_cases index b h in
      let (rest, valid, ends) = watch-warned_all (beat index b).1 bs h in
      elim (Bool-cases b.is_stopped) [
        | inl e ↦ rw e (refl, tt, refl)
        | inr e ↦ rw e (
          map-append _ (beat index b).0 _ ∙ ap₂ ◌++◌ same rest,
          All-append Warns (beat index b).0 _ all valid,
          ends,
        )
      ]
