-- ===== src/Task/Tests.antt =====
-- Runs of a task.
use mundosvirtuales_terremot.Base.{ℕ, ◌≤◌, ◌≡◌, true, false, List, [], ◌∷◌, arith}
use mundosvirtuales_terremot.Task.{Pass, over, run}
use mundosvirtuales_terremot.Task.Laws.{run_times_out}

abbrev passes : List Pass
passes =
    record { elapsed = 0; is_over = false }
    ∷ record { elapsed = 10; is_over = false }
    ∷ record { elapsed = 21; is_over = false }
    ∷ record { elapsed = 31; is_over = false }
    ∷ record { elapsed = 45; is_over = false }
    ∷ []

run_times_out_example : (calls : ℕ) × (run 30 true passes ≡ (calls, over 1)) × (calls ≤ 5)
run_times_out_example =
    run_times_out 30 10 true passes (omega arith)
      (omega arith, (omega arith, (omega arith, (omega arith, (omega arith, tt))))) (omega arith)
