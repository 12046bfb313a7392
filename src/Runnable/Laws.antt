-- ===== src/Runnable/Laws.antt =====
-- Which sequences of calls return.
use mundosvirtuales_terremot.Base.{ℕ, suc, ◌+◌, ◌≡◌, refl, Bool, true, false, List, [], ◌∷◌, arith}
use mundosvirtuales_terremot.Runnable.{
  Runnable, Outcome, done, thrown, terminated, new_runnable, Call, starting, stopping, run,
}

-- The calls alternate from a start on, or from a stop on.
abbrev pub alternates : Bool → List Call → Bool
alternates joinable [] = true
alternates true (starting ∷ calls) = false
alternates false (starting ∷ calls) = alternates true calls
alternates true (stopping ∷ calls) = alternates false calls
alternates false (stopping ∷ calls) = false

abbrev returns : Outcome → Bool
returns (done r) = true
returns (thrown r) = false
returns terminated = false

returns_from :
    (calls : List Call) (joinable flag : Bool) (n : ℕ)
    → returns (
        run calls
          (record { joinable = joinable; stop_flag = flag; is_detach = false; launched = n }))
      ≡ alternates joinable calls
unfolding run
returns_from [] joinable flag n = refl
returns_from (starting ∷ calls) true flag n = refl
returns_from (starting ∷ calls) false flag n = returns_from calls true flag (suc n)
returns_from (stopping ∷ calls) true flag n = returns_from calls false true n
returns_from (stopping ∷ calls) false flag n = refl

-- The calls on a thread that is not detached all return exactly if starts and stops alternate,
-- beginning with a start; otherwise one throws or terminates the program.
run-alternates :
    (calls : List Call) → returns (run calls (new_runnable false)) ≡ alternates false calls
run-alternates calls = returns_from calls false false 0

-- The starts among the calls.
abbrev pub starts : List Call → ℕ
starts [] = 0
starts (starting ∷ calls) = 1 + starts calls
starts (stopping ∷ calls) = starts calls

-- For a detached thread all calls return, and each start launches one more thread.
pub run_detached :
    (calls : List Call) (flag : Bool) (n : ℕ)
    → (r : Runnable) × (run calls
          (record { joinable = false; stop_flag = flag; is_detach = true; launched = n })
        ≡ done r)
      × (r.launched ≡ starts calls + n)
unfolding run
run_detached [] flag n = (
  record { joinable = false; stop_flag = flag; is_detach = true; launched = n },
  refl,
  omega arith,
)
run_detached (starting ∷ calls) flag n =
    let (r, e, l) = run_detached calls flag (suc n) in (r, e, omega arith)
run_detached (stopping ∷ calls) flag n = run_detached calls true n
