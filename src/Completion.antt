-- ===== src/Completion.antt =====
-- The completions of completion.c and the wait queues of include/guk/wait.h, over the scheduler. A queue
-- is the list of the threads that wait, since each brings one entry, on its stack. Each operation runs
-- under the lock of the queue, so it is one step; a wait is cut where it calls the scheduler.
pub mod Runs
pub mod Waits
mod Tests
use guestvm_guk.Base.{
  ℕ, zero, suc, ◌-◌, Bool, true, false, ◌||◌, Option, none, some, List, [], ◌∷◌, ◌++◌, ◌==◌,
  if◌then◌else◌,
}
use guestvm_guk.Sched.{Sched, block, wake, unlink}

-- `struct completion`, and the scheduler
pub record Completion : Type 0 where
  pub done : ℕ
  pub waiters : List ℕ
  pub sched : Sched

-- The entry of the thread is linked into a queue.
pub linked : ℕ → List ℕ → Bool
linked t [] = false
linked t (u ∷ q) = (t == u) || linked t q

-- `add_wait_queue`
pub add_wait_queue : ℕ → List ℕ → List ℕ
add_wait_queue t q = if linked t q then q else q ++ (t ∷ [])

-- `__wake_up`; `none` is a `BUG_ON` of `guk_wake`.
pub wake_up : ℕ → List ℕ → Sched → Option Sched
wake_up here [] s = some s
wake_up here (t ∷ q) s = elim (wake here s t) [ none ↦ none | some s1 ↦ wake_up here q s1 ]

-- what a wait comes to: it calls the scheduler, or it returns
pub data Wait : Type 0 where
  sleeps : Completion → Wait
  returns : Completion → Wait

-- `guk_wait_for_completion` up to the call of the scheduler
pub wait_begins : ℕ → Completion → ℕ → Wait
wait_begins here c t =
    if c.done == 0
    then sleeps (record c { waiters = add_wait_queue t c.waiters; sched = block here c.sched t })
    else returns (record c { done = c.done - 1 })

-- the loop of it, from where the scheduler has come back to the thread
pub wait_resumes : ℕ → Completion → ℕ → Wait
wait_resumes here c t =
    if c.done == 0
    then sleeps (record c { sched = block here c.sched t })
    else returns (record c { done = c.done - 1; waiters = unlink t c.waiters })

abbrev pub with_sched : Completion → Option Sched → Option Completion
with_sched c none = none
with_sched c (some s) = some (record c { sched = s })

-- `UINT_MAX / 2`
abbrev pub all_of_them : ℕ
all_of_them = 2147483647

-- `guk_complete` and `guk_complete_all`
pub complete : ℕ → Completion → Option Completion
complete here c = with_sched (record c { done = 1 }) (wake_up here c.waiters c.sched)

pub complete_all : ℕ → Completion → Option Completion
complete_all here c = with_sched (record c { done = all_of_them }) (wake_up here c.waiters c.sched)
