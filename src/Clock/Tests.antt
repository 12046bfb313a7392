-- ===== src/Clock/Tests.antt =====
-- Runs of the clock.
use mundosvirtuales_terremot.Base.{
  List, ℕ, ◌≡◌, refl, ◌+◌, ◌/◌, true, [], arith, ltb, length, none, if◌then◌else◌,
}
use mundosvirtuales_terremot.Alarm.{FloatOps, new_tally}
use mundosvirtuales_terremot.Clock.{get_host_addr, Timespec, get_real_system_time}
use mundosvirtuales_terremot.Clock.Elapsed.{Counts, count_measure-get_real_system_time}

abbrev first : Timespec
first = record { sec = 50; nsec = 3000000 }

abbrev second : Timespec
second = record { sec = 4000000; nsec = 0 }

-- Numbers that count halves.
abbrev halves : FloatOps
halves = record { plus = ◌+◌; over = λ a n. a / n; above_half = λ c. ltb 1 c }

abbrev third : Timespec
third = record { sec = 4000002; nsec = 0 }

count_measure-get_real_system_time_example :
    let (base, _) = get_real_system_time 0 first in
    let (kept, taken) = get_real_system_time base second in
    let (_, now) = get_real_system_time kept third in Counts halves taken now 6 2 new_tally true
count_measure-get_real_system_time_example =
    count_measure-get_real_system_time halves first second third 6 2 new_tally
      (λ e. absurd (omega (arith, e))) (omega arith) (omega arith) (omega arith) (omega arith) refl

-- A copy that leaves the buffer empty when the text and its end do not fit.
abbrev strict_copy : ℕ → List ℕ → List ℕ
strict_copy size text = if ltb (length text) size then text else []

no_local_address : get_host_addr (λ a. []) strict_copy none none ≡ []
unfolding get_host_addr
no_local_address = refl
