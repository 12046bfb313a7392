-- ===== src/Runnable.antt =====
-- src/utils/concurrency/Runnable.h: the thread of an object. A thread that std::thread holds is joinable until it is
-- joined or detached, also after its `run` has returned.
pub mod Laws
use mundosvirtuales_terremot.Base.{
  ℕ, zero, suc, ◌+◌, Bool, true, false, List, [], ◌∷◌, if◌then◌else◌,
}

-- m_thread, m_stop and m_isDetach; `launched` counts the threads that were started.
pub record Runnable : Type 0 where
  pub joinable : Bool
  pub stop_flag : Bool
  pub is_detach : Bool
  pub launched : ℕ

-- What std::thread does with a call: it returns, `join` throws std::system_error, or the program
-- is terminated, since a thread is assigned over one that is joinable.
pub data Outcome : Type 0 where
  done : Runnable → Outcome
  thrown : Runnable → Outcome
  terminated : Outcome

-- The constructor.
abbrev pub new_runnable : Bool → Runnable
new_runnable is_detach = record {
  joinable = false;
  stop_flag = false;
  is_detach = is_detach;
  launched = 0;
}

unfoldable pub start : Runnable → Outcome
start r =
    if r.joinable
    then terminated
    else done
        (record r { joinable = if r.is_detach then false else true; launched = suc r.launched })

-- `stop` without `preStop` and `postStop`, which are empty here; the thread has returned when `join` does.
unfoldable pub stop : Runnable → Outcome
stop r =
    let stopped = record r { stop_flag = true } in
    if r.is_detach
    then done stopped
    else if r.joinable
    then done (record stopped { joinable = false })
    else thrown stopped

-- The destructor stops the thread and catches what that throws.
unfoldable pub destroy : Runnable → Outcome
unfolding stop
destroy r = elim (stop r) [ done s ↦ done s | thrown s ↦ done s | terminated ↦ terminated ]

pub data Call : Type 0 where
  starting stopping : Call

-- A sequence of calls, until one does not return.
unfoldable pub run : List Call → Runnable → Outcome
unfolding start stop
run [] r = done r
run (starting ∷ calls) r = elim (start r) [
  | done s ↦ run calls s
  | thrown s ↦ thrown s
  | terminated ↦ terminated
]
run (stopping ∷ calls) r = elim (stop r) [
  | done s ↦ run calls s
  | thrown s ↦ thrown s
  | terminated ↦ terminated
]
