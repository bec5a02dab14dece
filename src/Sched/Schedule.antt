-- ===== src/Sched/Schedule.antt =====
-- The main function of the scheduler, up to the switch of stacks. The times that it accounts and the
-- timer that it sets are not modelled.
pub mod Runs
mod Tests
use guestvm_guk.Base.{
  ℕ, Bool, true, false, not, ◌&&◌, ◌||◌, Option, none, some, List, ◌==◌, if◌then◌else◌,
}
use guestvm_guk.Sched.{Sched, Thread, set_thread, pick_thread}
use guestvm_guk.Sched.Sleep.{Sleeper, wake_expired}

-- the thread on a CPU that is not up, or the choice of `pick_thread` and the check of it
pub next_thread : Bool → Sched → ℕ → ℕ → ℕ → Option ℕ → Option (ℕ × Sched)
next_thread false s cpu prev idle chosen = some (idle, s)
next_thread true s cpu prev idle chosen = elim (pick_thread s cpu prev idle chosen) [
  | none ↦ none
  | some (t, s') ↦ if not (s'.thread t).runnable && not (t == idle) then none else some (t, s')
]

-- The switch from `prev` to `t`: the CPU of `t`, and `switch_thread_in`.
abbrev pub switch_to : Sched → ℕ → ℕ → ℕ → Sched
switch_to s cpu prev t =
    let s1 = set_thread s t (record (s.thread t) { cpu = cpu }) in
    if prev == t then s1 else set_thread s1 prev (record (s1.thread prev) { running = false })

abbrev pub switch_next :
    ℕ → ℕ → List Sleeper → Option (ℕ × Sched) → Option (ℕ × Sched × List Sleeper)
switch_next cpu prev q none = none
switch_next cpu prev q (some (t, s)) =
    if (s.thread t).dying then none else some (t, switch_to s cpu prev t, q)

-- `guk_schedule`, on the CPU `here` at the time `now`; `up` is whether the CPU is. `none` is a `BUG`.
pub schedule :
    ℕ → ℕ → Bool → Sched → List Sleeper → ℕ → ℕ → Option ℕ → Option (ℕ × Sched × List Sleeper)
schedule here now up s q prev idle chosen = elim (wake_expired here now s q) [
  | none ↦ none
  | some (s1, q1) ↦
      let cpu = (s1.thread prev).cpu in
      switch_next cpu prev q1 (next_thread up s1 cpu prev idle chosen)
]
