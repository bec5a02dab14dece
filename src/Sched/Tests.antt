-- ===== src/Sched/Tests.antt =====
-- Two runnable threads of the microkernel and a thread of the VM, and the theorems at them.
use guestvm_guk.Base.{
  ℕ, zero, suc, ◌<◌, ◌≡◌, ◌≢◌, refl, true, false, arith, none, some, List, [], ◌∷◌, ◌==◌,
  if◌then◌else◌,
}
use guestvm_guk.Sched.{Sched, Thread, block, requeue, eligible, pick_thread, unlink, set_thread}
use guestvm_guk.Sched.Queue.{count}
use guestvm_guk.Sched.Synced.{IsSynced}
use guestvm_guk.Sched.Pick.{Picks, pick_thread-Picks, pick_thread-round_robin}
use guestvm_guk.Sched.Sleep.{Sleeper, sleep_queue_add, wake_expired}
use guestvm_guk.Sched.Sleep.Laws.{
  Placed, SortedFrom, sleep_queue_add-Placed, wake_expired_lem, woken_due,
}

abbrev pub blocked_thread : Thread
blocked_thread = record {
  runnable = false;
  running = false;
  dying = false;
  req_debug_suspend = false;
  debug_suspend = false;
  interrupted = false;
  ukernel = true;
  joining = false;
  sleeping = false;
  appsched = false;
  appsched_id = 65535;
  regs = 0;
  cpu = 0;
  joiners = [];
}

-- Threads 1 and 2 are runnable, 1 runs; thread 4 is one of the VM.
abbrev pub sched : Sched
sched = record {
  thread = λ t.
      if t == 1
      then record blocked_thread { runnable = true; running = true }
      else if t == 2
      then record blocked_thread { runnable = true }
      else if t == 4
      then record blocked_thread {
        runnable = true;
        appsched = true;
        appsched_id = 7;
        ukernel = false;
      }
      else blocked_thread;
  ready_queue = 1 ∷ 2 ∷ [];
  upcalls_active = true;
  thread_id = 5;
  events = [];
}

other : (t u : ℕ) → u < 5 → (suc (suc (suc (suc (suc t)))) == u) ≡ false
other t u h = ground arith

pub sched-IsSynced : IsSynced sched
unfolding count
sched-IsSynced zero = refl
sched-IsSynced (suc zero) = refl
sched-IsSynced (suc (suc zero)) = refl
sched-IsSynced (suc (suc (suc zero))) = refl
sched-IsSynced (suc (suc (suc (suc zero)))) = refl
sched-IsSynced (suc (suc (suc (suc (suc t))))) =
    rw (other t 1 (omega arith), other t 2 (omega arith), other t 4 (omega arith))

-- the state after thread 1 has blocked and CPU 0 has turned to thread 2
abbrev turned : Sched
turned = set_thread (block 0 sched 1) 2 (record (sched.thread 2) { running = true })

pick_thread-Picks_test : Picks (requeue sched 1 0) 0 0 none (pick_thread sched 0 1 0 none)
unfolding requeue unlink
pick_thread-Picks_test = pick_thread-Picks sched 0 1 0 none (omega arith)

pick_thread-round_robin_example :
    (t : ℕ) × (t ≢ 1)
    × (eligible sched 0 t ≡ true)
    × ((s' : Sched) × (pick_thread sched 0 1 0 none ≡ some (t, s')))
unfolding eligible count
pick_thread-round_robin_example =
    pick_thread-round_robin sched 0 1 0 2 none sched-IsSynced refl refl (λ e. absurd (omega arith))
      (λ e. absurd (omega arith)) (ground arith) refl (omega arith)

abbrev sleeper : ℕ → ℕ → Sleeper
sleeper t time = record {
  entry = t;
  thread = t;
  wakeup_time = time;
  active = true;
  expired = false;
}

abbrev sleepers : List Sleeper
sleepers = sleeper 3 100 ∷ sleeper 5 200 ∷ sleeper 6 300 ∷ []

sleep_queue_add-Placed_test :
    Placed
      (record (sleeper 7 200) { active = true })
      sleepers
      (sleep_queue_add (sleeper 7 200) sleepers)
    × SortedFrom 0 (sleep_queue_add (sleeper 7 200) sleepers)
sleep_queue_add-Placed_test =
    sleep_queue_add-Placed (sleeper 7 200) sleepers (omega arith, (omega arith, (omega arith, tt)))

wake_expired_lem_example : wake_expired 0 250 sched sleepers ≡ woken_due 0 250 sched sleepers
wake_expired_lem_example =
    wake_expired_lem 0 0 250 sched sleepers (omega arith, (omega arith, (omega arith, tt)))
