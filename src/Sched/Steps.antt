-- ===== src/Sched/Steps.antt =====
-- The scheduler as a state machine: its operations one after the other, in any order. Each runs to its
-- end before the next begins, also where no lock spans it.
use guestvm_guk.Base.{Bool, List, ℕ, ◌≡◌, true, Option, some}
use guestvm_guk.Sched.{
  Sched, block, wake, db_wake, attach_to_appsched, detach_from_appsched, pick_thread,
}
use guestvm_guk.Sched.Sleep.{Sleeper, wake_expired}
use guestvm_guk.Sched.Sleep.Timers.{nanosleep}
use guestvm_guk.Sched.Life.{Threads, join_thread, exit_thread, reap_dead, interrupt}
use guestvm_guk.Sched.Schedule.{schedule}

-- the threads that have ended, beside the scheduler's state
abbrev pub threads : Sched → List ℕ → List ℕ → Threads
threads s zombies freed = record { sched = s; zombie_queue = zombies; freed = freed }

-- One whole operation on the CPU `here`. The VM gives back only threads that were handed to it.
pub data Step (s s' : Sched) : Type 0 where
  blocks : (here t : ℕ) → block here s t ≡ s' → Step s s'
  wakes : (here t : ℕ) → wake here s t ≡ some s' → Step s s'
  db_wakes : (here t : ℕ) → db_wake here s t ≡ s' → Step s s'
  attaches : (here t id : ℕ) → attach_to_appsched here s t id ≡ s' → Step s s'
  detaches :
      (here t : ℕ)
      → (s.thread t).appsched ≡ true
      → detach_from_appsched here s t ≡ some s'
      → Step s s'
  expires :
      (here now : ℕ) (q q' : List Sleeper) → wake_expired here now s q ≡ some (s', q') → Step s s'
  picks :
      (here prev idle t : ℕ) (chosen : Option ℕ)
      → pick_thread s here prev idle chosen ≡ some (t, s')
      → Step s s'
  schedules :
      (here now : ℕ) (up : Bool) (q q' : List Sleeper) (prev idle t : ℕ) (chosen : Option ℕ)
      → schedule here now up s q prev idle chosen ≡ some (t, s', q')
      → Step s s'
  sleeps :
      (here now : ℕ) (q : List Sleeper) (t id nanosecs : ℕ)
      → (nanosleep here now s q t id nanosecs).0 ≡ s'
      → Step s s'
  joins : (here this joinee : ℕ) → join_thread here s this joinee ≡ s' → Step s s'
  interrupts : (here t : ℕ) → interrupt here s t ≡ some s' → Step s s'
  exits :
      (here t : ℕ) (zombies freed zombies' freed' : List ℕ)
      → exit_thread here (threads s zombies freed) t ≡ some (threads s' zombies' freed')
      → Step s s'
  reaps :
      (here : ℕ) (zombies freed zombies' freed' : List ℕ)
      → reap_dead here zombies (threads s zombies freed) ≡ some (threads s' zombies' freed')
      → Step s s'

pub data Steps (s'' : Sched) : Sched → Type 0 where
  done : Steps s'' s''
  step : (s s' : Sched) → Step s s' → Steps s'' s' → Steps s'' s
