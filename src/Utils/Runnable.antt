-- ===== src/Utils/Runnable.antt =====
-- src/utils/runnable.cpp: a thread that loops until it is told to stop. The caller's `stop` first sets
-- the flag and then waits for the thread, which runs meanwhile: it takes two steps.
pub mod Reach
use libvsf.Prelude.{◌≡◌, Bool, true, false, ◌&&◌, not, if◌then◌else◌}
use libvsf.Prelude.Exec.{Result, ok, err, terminated}

-- The object that `thread_` points to, if it points to one.
pub data Thread : Type 0 where
  no_thread joinable_thread joined_thread : Thread

-- `runs` is whether the thread is in `run`, `waits` whether the caller is in `thread_->join()`.
pub record Runnable : Type 0 where
  pub stop : Bool
  pub thread : Thread
  pub runs : Bool
  pub waits : Bool

abbrev pub idle : Runnable
idle = record { stop = true; thread = Thread.no_thread; runs = false; waits = false }

abbrev pub is_joinable : Thread → Bool
is_joinable Thread.joinable_thread = true
is_joinable _ = false

unfoldable pub joinable : Runnable → Bool
joinable r = is_joinable r.thread

-- To destroy a thread object that is joinable ends the program.
unfoldable pub start : Runnable → Result Runnable
start r =
    if not r.stop
    then ok r
    else if joinable r
    then err terminated
    else ok (record r { stop = false; thread = Thread.joinable_thread; runs = true })

-- The part of `stop` up to the wait for the thread.
unfoldable pub begin_stop : Runnable → Runnable
begin_stop r = if r.stop then r else record r { stop = true; waits = joinable r }

-- The end of the wait.
unfoldable pub end_stop : Runnable → Runnable
end_stop r = record r { thread = Thread.joined_thread; waits = false }

-- The loop of `run` of each component ends once the flag is set.
unfoldable pub end_run : Runnable → Runnable
end_run r = record r { runs = false }
