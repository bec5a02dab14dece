-- ===== src/Sched.antt =====
-- The scheduler of sched.c: the threads with their flags, the ready queue, and the operations that
-- block, wake and pick threads. A thread is known by its number, and each flag of
-- include/guk/sched.h is a field. Each operation runs under the lock of the queue that it changes, so
-- it is one step on the state.
pub mod Sleep
pub mod Queue
pub mod Synced
pub mod Wakes
pub mod Eligible
pub mod Pick
pub mod Life
pub mod Schedule
pub mod Steps
pub mod Tests
use guestvm_guk.Base.{
  ℕ, zero, suc, ◌+◌, Bool, true, false, not, ◌&&◌, ◌||◌, Option, none, some, List, [], ◌∷◌, ◌++◌,
  ◌==◌, if◌then◌else◌,
}

pub record Thread : Type 0 where
  pub runnable : Bool
  pub running : Bool
  pub dying : Bool
  pub req_debug_suspend : Bool
  pub debug_suspend : Bool
  pub interrupted : Bool
  pub ukernel : Bool
  pub joining : Bool
  pub sleeping : Bool
  pub appsched : Bool
  pub appsched_id : ℕ
  pub regs : ℕ
  pub cpu : ℕ
  pub joiners : List ℕ

-- What the scheduler asks of others: the upcalls into the VM's scheduler with their arguments, and an
-- interrupt to a CPU.
pub data Event : Type 0 where
  wake_upcall : ℕ → ℕ → Event
  block_upcall : ℕ → ℕ → Event
  attach_upcall : ℕ → ℕ → ℕ → Event
  detach_upcall : ℕ → ℕ → Event
  deschedule_upcall : ℕ → Event
  kick_cpu : ℕ → Event

-- the `appsched_id` of a thread that the VM does not schedule, -1 in 16 bits
abbrev pub no_appsched_id : ℕ
no_appsched_id = 65535

pub record Sched : Type 0 where
  pub thread : ℕ → Thread
  pub ready_queue : List ℕ
  pub upcalls_active : Bool
  pub thread_id : ℕ
  pub events : List Event

abbrev pub update : (ℕ → Thread) → ℕ → Thread → ℕ → Thread
update f t th u = if t == u then th else f u

abbrev pub set_thread : Sched → ℕ → Thread → Sched
set_thread s t th = record s { thread = update s.thread t th }

abbrev pub log : Event → Sched → Sched
log e s = record s { events = e ∷ s.events }

-- `list_del_init` of a thread's link in the ready queue
unfoldable pub unlink : ℕ → List ℕ → List ℕ
unlink t [] = []
unlink t (u ∷ q) = if t == u then q else u ∷ unlink t q

-- The VM schedules the thread, not the microkernel.
abbrev pub is_upcalled : Sched → ℕ → Bool
is_upcalled s t = s.upcalls_active && (s.thread t).appsched

-- `block`, on the CPU `here`
unfoldable pub block : ℕ → Sched → ℕ → Sched
block here s t =
    let blocked = set_thread s t (record (s.thread t) { runnable = false }) in
    if (s.thread t).runnable
    then (if is_upcalled s t
        then log (block_upcall (s.thread t).appsched_id here) blocked
        else record blocked { ready_queue = unlink t s.ready_queue })
    else s

-- `db_wake`, on the CPU `here`
unfoldable pub db_wake : ℕ → Sched → ℕ → Sched
db_wake here s t =
    let woken = set_thread s t (record (s.thread t) { runnable = true }) in
    let s' =
      if is_upcalled s t
      then log (wake_upcall (s.thread t).appsched_id here) woken
      else if (s.thread t).runnable
      then s
      else record woken { ready_queue = s.ready_queue ++ (t ∷ []) } in
    if (s.thread t).cpu == here then s' else log (kick_cpu (s.thread t).cpu) s'

-- `guk_wake`; `none` is its `BUG_ON`.
unfoldable pub wake : ℕ → Sched → ℕ → Option Sched
wake here s t =
    let th = record (s.thread t) { regs = 0 } in
    let s0 = set_thread s t th in
    if th.debug_suspend
    then some s0
    else if th.req_debug_suspend
    then some (set_thread s t (record th { req_debug_suspend = false; debug_suspend = true }))
    else if th.dying
    then none
    else if not th.runnable || is_upcalled s t
    then some (db_wake here s0 t)
    else some s0

-- `guk_attach_to_appsched` and `guk_detach_from_appsched`, where no other CPU acts on the thread between
-- their calls, which no lock spans
pub attach_to_appsched : ℕ → Sched → ℕ → ℕ → Sched
attach_to_appsched here s t id =
    let s1 = block here s t in
    let th = record (s1.thread t) { appsched = true; runnable = true; appsched_id = id } in
    if s.upcalls_active then log (attach_upcall id th.cpu here) (set_thread s1 t th) else s

pub detach_from_appsched : ℕ → Sched → ℕ → Option Sched
detach_from_appsched here s t =
    let th = s.thread t in
    if s.upcalls_active
    then wake here
        (set_thread (log (detach_upcall th.appsched_id here) s) t
          (record th { appsched = false; appsched_id = no_appsched_id; runnable = false }))
        t
    else some s

-- `pick_thread` moves the thread that has run to the end of the queue.
pub requeue : Sched → ℕ → ℕ → Sched
requeue s prev idle =
    if not (is_upcalled s prev) && ((s.thread prev).runnable && not (prev == idle))
    then record s { ready_queue = unlink prev s.ready_queue ++ (prev ∷ []) }
    else s

-- The thread may run on `cpu`.
pub eligible : Sched → ℕ → ℕ → Bool
eligible s cpu t =
    let th = s.thread t in
    (th.runnable && not (th.running && not (th.cpu == cpu)))
    && (not s.upcalls_active || (th.ukernel || th.cpu == cpu))

-- what the walk over the ready queue comes to
pub data Search : Type 0 where
  corrupt : Search
  nobody : Search
  found : ℕ → Search

-- The walk stops the system when it passes more than `limit` threads.
pub find_eligible : Sched → ℕ → ℕ → List ℕ → Search
find_eligible s cpu limit [] = nobody
find_eligible s cpu zero (t ∷ q) = corrupt
find_eligible s cpu (suc limit) (t ∷ q) =
    if eligible s cpu t then found t else find_eligible s cpu limit q

abbrev pub set_running : Sched → ℕ → Sched
set_running s t = set_thread s t (record (s.thread t) { running = true })

-- The last check before a thread runs; `none` is the `BUG`.
abbrev pub run_thread : Sched → ℕ → ℕ → Option (ℕ × Sched)
run_thread s cpu t =
    if (s.thread t).running && not ((s.thread t).cpu == cpu)
    then none
    else some (t, set_running s t)

-- The switch from a thread of the VM to one of the microkernel is told to the VM.
abbrev pub told : Sched → ℕ → ℕ → Option (ℕ × Sched) → Option (ℕ × Sched)
told s cpu prev none = none
told s cpu prev (some (t, s')) =
    some (t, (if is_upcalled s' prev then log (deschedule_upcall cpu) s' else s'))

-- What `pick_thread` does with the result of the walk. `chosen` is the answer of the scheduler upcall;
-- `none` is a `BUG`.
pub run_next : Sched → ℕ → ℕ → ℕ → Option ℕ → Search → Option (ℕ × Sched)
run_next s cpu prev idle chosen corrupt = none
run_next s cpu prev idle chosen (found t) = told s cpu prev (run_thread s cpu t)
run_next s cpu prev idle none nobody = some (idle, set_running s idle)
run_next s cpu prev idle (some t) nobody =
    if s.upcalls_active then run_thread s cpu t else some (idle, set_running s idle)

pub pick_thread : Sched → ℕ → ℕ → ℕ → Option ℕ → Option (ℕ × Sched)
pick_thread s cpu prev idle chosen =
    let s1 = requeue s prev idle in
    run_next s1 cpu prev idle chosen (find_eligible s1 cpu s.thread_id s1.ready_queue)
