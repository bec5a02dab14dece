-- ===== src/Sched/Life.antt =====
-- The end of threads, and those who wait for it: joiners, zombies and interruption.
pub mod Synced
pub mod Joiners
pub mod Exits
mod Tests
use guestvm_guk.Base.{
  ℕ, ◌+◌, Bool, true, false, not, ◌&&◌, ◌||◌, Option, none, some, List, [], ◌∷◌, ◌++◌, ◌==◌,
  if◌then◌else◌,
}
use guestvm_guk.Sched.{Thread, Sched, set_thread, unlink, block, wake}

-- The zombies share the link `ready_list` with the ready queue; `freed` are the threads whose memory has
-- been given back.
pub record Threads : Type 0 where
  pub sched : Sched
  pub zombie_queue : List ℕ
  pub freed : List ℕ

-- the flag setters of include/guk/sched.h, and the list of joiners
abbrev pub set_joining : Sched → ℕ → Bool → Sched
set_joining s t b = set_thread s t (record (s.thread t) { joining = b })

abbrev pub set_dying : Sched → ℕ → Sched
set_dying s t = set_thread s t (record (s.thread t) { dying = true })

abbrev pub set_interrupted : Sched → ℕ → Bool → Sched
set_interrupted s t b = set_thread s t (record (s.thread t) { interrupted = b })

abbrev pub clear_regs : Sched → ℕ → Sched
clear_regs s t = set_thread s t (record (s.thread t) { regs = 0 })

abbrev pub set_joiners : Sched → ℕ → List ℕ → Sched
set_joiners s t js = set_thread s t (record (s.thread t) { joiners = js })

-- The thread leaves the joiners of `joinee`, as `wake_joiners` takes it off.
abbrev pub unjoin : Sched → ℕ → ℕ → Sched
unjoin s joinee t =
    let s1 = set_joining s t false in set_joiners s1 joinee (unlink t (s1.thread joinee).joiners)

-- `wake_joiners`, over the joiners that the list has when it starts; `none` is a `BUG_ON` of `guk_wake`.
pub wake_joiners : ℕ → ℕ → List ℕ → Sched → Option Sched
wake_joiners here joinee [] s = some s
wake_joiners here joinee (t ∷ ts) s = elim (wake here (unjoin s joinee t) t) [
  | none ↦ none
  | some s1 ↦ wake_joiners here joinee ts s1
]

-- `guk_join_thread` up to the call of the scheduler
pub join_thread : ℕ → Sched → ℕ → ℕ → Sched
join_thread here s this joinee =
    let s1 = set_joining (block here (clear_regs s this) this) this true in
    if (s.thread this).dying
    then s
    else set_joiners s1 joinee ((s1.thread joinee).joiners ++ (this ∷ []))

-- the rest of it: whether it was interrupted
pub join_ends : Sched → ℕ → Bool × Sched
join_ends s this =
    if (s.thread this).interrupted then (true, set_interrupted s this false) else (false, s)

abbrev pub with_sched : Threads → Option Sched → Option Threads
with_sched ts none = none
with_sched ts (some s) = some (record ts { sched = s })

-- `exit_thread` up to the call of the scheduler, behind the callback `guk_invoke_destroy` that the threads
-- of the VM make first
pub exit_thread : ℕ → Threads → ℕ → Option Threads
exit_thread here ts t =
    let s2 = set_dying (block here ts.sched t) t in
    if not (ts.sched.thread t).running
    then none
    else with_sched (record ts { zombie_queue = ts.zombie_queue ++ (t ∷ []) })
        (wake_joiners here t (s2.thread t).joiners s2)

-- `reap_dead` takes the threads that have ended on this CPU off the zombies.
abbrev pub reapable : ℕ → Sched → ℕ → Bool
reapable here s t = let th = s.thread t in th.dying && (not th.running && (th.cpu == here))

pub reap_dead : ℕ → List ℕ → Threads → Option Threads
reap_dead here [] ts = some ts
reap_dead here (t ∷ zombies) ts =
    let rest = reap_dead here zombies ts in
    let reaped : Option Threads = elim (wake_joiners here t (ts.sched.thread t).joiners ts.sched) [
      | none ↦ none
      | some s1 ↦
          reap_dead here zombies (record ts {
            sched = s1;
            zombie_queue = unlink t ts.zombie_queue;
            freed = t ∷ ts.freed;
          })
    ] in
    if reapable here ts.sched t then reaped else rest

-- A thread that joins is taken off the list that it waits in.
abbrev pub leave_joiners : Sched → ℕ → Sched
leave_joiners s t =
    set_joining
      (record s { thread = λ u. record (s.thread u) { joiners = unlink t (s.thread u).joiners } }) t
      false

-- `guk_interrupt`
pub interrupt : ℕ → Sched → ℕ → Option Sched
interrupt here s t =
    let th = s.thread t in
    let s1 = if th.joining then leave_joiners s t else s in
    if not (th.runnable || (th.running || th.dying))
    then wake here (set_interrupted s1 t true) t
    else some s
