-- ===== src/Task.antt =====
-- src/utils/concurrency/Concurrency.h: the task that is repeated on a thread of its own. A pass is what the principal
-- task returns and the milliseconds elapsed before it; a list of passes that ends while the loop runs is a task
-- that goes on.
pub mod Laws
mod Tests
use mundosvirtuales_terremot.Base.{
  ℕ, zero, suc, ◌+◌, Bool, true, false, ◌&&◌, ◌||◌, List, [], ◌∷◌, if◌then◌else◌, ltb,
}

pub record Pass : Type 0 where
  pub elapsed : ℕ
  pub is_over : Bool

-- The thread runs, or has ended and called the post task so many times.
pub data Progress : Type 0 where
  running : Progress
  over : ℕ → Progress

-- The test after the principal task.
abbrev pub breaks : ℕ → Pass → Bool
breaks timeout p = p.is_over || ltb 0 timeout && ltb timeout p.elapsed

-- `run`: how often the principal task was called, and how the thread is.
unfoldable pub run : ℕ → Bool → List Pass → ℕ × Progress
run timeout has_post [] = (0, running)
run timeout has_post (p ∷ ps) =
    let (calls, progress) = run timeout has_post ps in
    if breaks timeout p then (1, over (if has_post then 1 else 0)) else (suc calls, progress)
