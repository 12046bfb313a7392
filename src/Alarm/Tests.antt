-- ===== src/Alarm/Tests.antt =====
-- Runs of the alert.
use mundosvirtuales_terremot.Base.{
  ◌+◌, ◌/◌, ◌%◌, ◌^◌, ◌≡◌, refl, arith, All, map, true, false, List, [], ◌∷◌, ltb,
}
use mundosvirtuales_terremot.Base.Int.{pos}
use mundosvirtuales_terremot.Sensors.{Measurement, ListSensors}
use mundosvirtuales_terremot.Alarm.{FloatOps}
use mundosvirtuales_terremot.Alarm.Watch.{
  Beat, watch, warned_all, Warns, is_halted, watch-warned_all,
}

-- Numbers that count halves.
abbrev halves : FloatOps
halves = record { plus = ◌+◌; over = λ a n. a / n; above_half = λ c. ltb 1 c }

abbrev fresh : Measurement
fresh = record { intensity = 6; timestamp = pos 9000; confidence = 2 }

abbrev stale : Measurement
stale = record { intensity = 6; timestamp = pos 1000; confidence = 2 }

abbrev list : ListSensors
list = record {
  queue = fresh ∷ stale ∷ fresh ∷ [];
  next_pos = pos 3;
  active_sensors = pos 2;
  max_size = 3;
}

-- Whole numbers, whose quotients are kept in 32 bits.
abbrev words : FloatOps
words = record { plus = ◌+◌; over = λ a n. a / n % 2 ^ 32; above_half = λ c. ltb 1 c }

-- An alarming beat, a calm one, and a stop.
abbrev beats : List Beat
beats =
    record { is_stopped = false; time = pos 10000; sensors = list; clients = 4 ∷ 7 ∷ [] }
    ∷ record { is_stopped = false; time = pos 20000; sensors = list; clients = 4 ∷ 7 ∷ [] }
    ∷ record { is_stopped = true; time = pos 10000; sensors = list; clients = 4 ∷ [] }
    ∷ []

warned-beats : warned_all words beats ≡ 4 ∷ 7 ∷ []
warned-beats = refl

watch-warned_all_example :
    let w = watch words 0 beats in
    (map (λ m. m.0) w.messages ≡ warned_all words beats)
    × All Warns w.messages
    × (w.is_ended ≡ is_halted beats)
watch-warned_all_example = watch-warned_all words 0 beats (λ a n. omega arith)
