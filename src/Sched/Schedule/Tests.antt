-- ===== src/Sched/Schedule/Tests.antt =====
-- CPU 0 turns from thread 1 to thread 2.
use guestvm_guk.Base.{ℕ, refl, true, none, List, [], ◌∷◌}
use guestvm_guk.Sched.{
  Sched, set_running, pick_thread, requeue, find_eligible, eligible, run_next, unlink,
}
use guestvm_guk.Sched.Sleep.{Sleeper, wake_expired}
use guestvm_guk.Sched.Tests.{sched, sched-IsSynced}
use guestvm_guk.Sched.Schedule.{schedule, switch_to, next_thread}
use guestvm_guk.Sched.Schedule.Runs.{RunsIn, schedule-RunsIn}

abbrev after : ℕ × Sched × List Sleeper
after = (2, switch_to (set_running (record sched { ready_queue = 2 ∷ 1 ∷ [] }) 2) 0 1 2, [])

schedule-RunsIn_example : RunsIn 0 1 0 after
unfolding schedule next_thread wake_expired pick_thread requeue find_eligible eligible run_next
    unlink
schedule-RunsIn_example = schedule-RunsIn 0 5 true sched [] 1 0 none after sched-IsSynced refl
