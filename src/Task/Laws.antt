-- ===== src/Task/Laws.antt =====
-- When a task ends.
use mundosvirtuales_terremot.Base.{
  ℕ, suc, ◌+◌, ◌*◌, ◌≤◌, ◌<◌, ◌≡◌, refl, Bool, false, inl, inr, List, [], ◌∷◌, arith, All, length,
  Bool-cases, if◌then◌else◌,
}
use mundosvirtuales_terremot.Task.{Pass, running, over, breaks, run}

-- The passes come at least `step` milliseconds after each other, from `start` on.
abbrev pub Spaced : ℕ → ℕ → List Pass → Type 0
Spaced step start [] = Unit
Spaced step start (p ∷ ps) = (start ≤ p.elapsed) × Spaced step (p.elapsed + step) ps

times_out_from :
    (timeout step start : ℕ) (has_post : Bool) (ps : List Pass)
    → 0 < timeout
    → start ≤ timeout + step
    → Spaced step start ps
    → timeout + step < start + length ps * step
    → (calls : ℕ) × (run timeout has_post ps ≡ (calls, over (if has_post then 1 else 0)))
      × (calls ≤ length ps)
unfolding run
times_out_from timeout step start has_post [] positive early s late = absurd (omega arith)
times_out_from timeout step start has_post (p ∷ ps) positive early (first, s) late =
    elim (Bool-cases (breaks timeout p)) [
      | inl e ↦ (1, rw (e, run) refl, omega arith)
      | inr e ↦
          let unelapsed : p.elapsed ≤ timeout = ground arith in
          let (calls, same, few) =
            times_out_from timeout step (p.elapsed + step) has_post ps positive (omega arith) s
              (omega (arith, suc_mul (length ps) step)) in
          (suc calls, rw (e, same, run) refl, omega arith)
    ]
  where
    suc_mul : (n k : ℕ) → suc n * k ≡ n * k + k
    suc_mul n k = omega arith

-- A task with a timeout ends, whatever the principal task returns, when its passes are at least `step`
-- milliseconds apart, within so many passes that they take longer than the timeout and one step. The post task is
-- called once if there is one.
pub run_times_out :
    (timeout step : ℕ) (has_post : Bool) (ps : List Pass)
    → 0 < timeout
    → Spaced step 0 ps
    → timeout + step < length ps * step
    → (calls : ℕ) × (run timeout has_post ps ≡ (calls, over (if has_post then 1 else 0)))
      × (calls ≤ length ps)
run_times_out timeout step has_post ps positive s late =
    times_out_from timeout step 0 has_post ps positive (omega arith) s (omega arith)

-- Without a timeout, a task goes on as long as the principal task returns false.
pub run_goes_on :
    (has_post : Bool) (ps : List Pass)
    → All (λ p. p.is_over ≡ false) ps
    → run 0 has_post ps ≡ (length ps, running)
unfolding run
run_goes_on has_post [] a = refl
run_goes_on has_post (p ∷ ps) (e, a) = rw (e, run_goes_on has_post ps a) refl
