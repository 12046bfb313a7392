-- ===== src/Entry.antt =====
-- src/main.cpp with `start` and `stop` of src/server/ServerAlarm.h: the start of the servers, the wait for the key and the
-- end. A join is taken to return.
mod Tests
use mundosvirtuales_terremot.Base.{
  ℕ, zero, suc, ◌+◌, ◌≡◌, refl, Bool, true, false, ◌||◌, inl, inr, List, [], ◌∷◌, Bool-cases,
  if◌then◌else◌, ◌==◌,
}
use mundosvirtuales_terremot.Runnable
use mundosvirtuales_terremot.Runnable.{Runnable, Outcome, done, thrown, terminated, new_runnable}

-- The threads of the two servers and m_requestAlarm.
pub record Program : Type 0 where
  pub alarm : Runnable
  pub request : Runnable
  pub sensors : Runnable

-- The end of `main`, a wait for keys, an exception that nothing catches, or std::terminate.
pub data Ending : Type 0 where
  returned : Program → Ending
  waiting : Program → Ending
  uncaught : Ending
  aborted : Ending

-- A call on a thread, and what follows if it returns.
abbrev pub after : Outcome → (Runnable → Ending) → Ending
after (done r) f = f r
after (thrown r) f = uncaught
after terminated f = aborted

-- The loop until 'Q' or 'q'; the end of the input is the code 255, for ever.
unfoldable pub is_quit : List ℕ → Bool
is_quit [] = false
is_quit (c ∷ cs) = if c == 81 || c == 113 then true else is_quit cs

abbrev pub stop_all : Program → Ending
stop_all p = after (Runnable.stop p.sensors) (λ sensors. after (Runnable.stop p.request) (λ request.
    after (Runnable.stop p.alarm)
      (λ alarm. returned (record { alarm = alarm; request = request; sensors = sensors }))))

-- `main` on the keys.
unfoldable pub main : Program → List ℕ → Ending
unfolding is_quit Runnable.start Runnable.stop
main p keys = after (Runnable.start p.alarm) (λ alarm. after (Runnable.start p.request) (λ request.
    after (Runnable.start p.sensors) (λ sensors.
      let q : Program = record { alarm = alarm; request = request; sensors = sensors } in
      if is_quit keys then stop_all q else waiting q)))

abbrev pub new_program : Program
new_program = record {
  alarm = new_runnable false;
  request = new_runnable false;
  sensors = new_runnable false;
}

-- A thread that was started, and one that was stopped after it.
abbrev pub started : Runnable
started = record { joinable = true; stop_flag = false; is_detach = false; launched = 1 }

abbrev pub stopped : Runnable
stopped = record { joinable = false; stop_flag = true; is_detach = false; launched = 1 }

-- The program starts each of its three threads once. It returns with all of them stopped exactly if one of the
-- keys is 'Q' or 'q', and otherwise waits, also after the end of the input.
pub main_returns :
    (keys : List ℕ)
    → main new_program keys ≡ (
        if is_quit keys
        then returned (record { alarm = stopped; request = stopped; sensors = stopped })
        else waiting (record { alarm = started; request = started; sensors = started }))
unfolding main
main_returns keys = refl
