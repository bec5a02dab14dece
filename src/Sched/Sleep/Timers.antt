-- ===== src/Sched/Sleep/Timers.antt =====
-- Timers and sleeping threads: the users of the sleep queue. Times are in nanoseconds and less than 2^63.
pub mod Fires
mod Tests
use guestvm_guk.Base.{
  ℕ, ◌+◌, ◌*◌, ◌%◌, ◌^◌, Bool, true, false, Option, none, some, List, [], ◌∷◌, ◌==◌, if◌then◌else◌,
}
use guestvm_guk.Sched.{Sched, Thread, set_thread, block}
use guestvm_guk.Sched.Sleep.{Sleeper, sleep_queue_add}

-- `guk_sleep_queue_del`
pub sleep_queue_del : ℕ → List Sleeper → List Sleeper
sleep_queue_del id [] = []
sleep_queue_del id (sq ∷ q) = if id == sq.entry then q else sq ∷ sleep_queue_del id q

-- The flag of the entry; an entry that is in no queue has none.
pub is_expired : ℕ → List Sleeper → Bool
is_expired id [] = false
is_expired id (sq ∷ q) = if id == sq.entry then sq.expired else is_expired id q

-- an entry as `init_sleep_queue` and `DEFINE_SLEEP_QUEUE` leave it, with its time
abbrev pub new_entry : ℕ → ℕ → ℕ → Sleeper
new_entry id current time = record {
  entry = id;
  thread = current;
  wakeup_time = time;
  active = false;
  expired = false;
}

-- `guk_add_timer` of a timer that is not in the queue, with the time-out in milliseconds: the
-- bits of the sum, which is a time where it is less than 2^63
pub add_timer : ℕ → ℕ → ℕ → ℕ → List Sleeper → List Sleeper
add_timer now current id timeout q =
    sleep_queue_add (new_entry id current ((now + timeout * 1000000) % 2 ^ 64)) q

-- `guk_remove_timer`: whether the timer has expired
pub remove_timer : ℕ → List Sleeper → Bool × List Sleeper
remove_timer id q = (is_expired id q, sleep_queue_del id q)

abbrev pub set_sleeping : Sched → ℕ → Bool → Sched
set_sleeping s t b = set_thread s t (record (s.thread t) { sleeping = b })

-- `guk_nanosleep` up to the call of the scheduler, with the entry `id` on the stack of the thread
pub nanosleep : ℕ → ℕ → Sched → List Sleeper → ℕ → ℕ → ℕ → Sched × List Sleeper
nanosleep here now s q t id nanosecs =
    (set_sleeping (block here s t) t true, sleep_queue_add (new_entry id t (now + nanosecs)) q)

-- the rest of it: whether it was interrupted
abbrev pub awaken : Sched → List Sleeper → ℕ → ℕ → Sched × List Sleeper
awaken s q t id =
    if (s.thread t).sleeping then (set_sleeping s t false, sleep_queue_del id q) else (s, q)

abbrev pub interruption : ℕ → Sched × List Sleeper → Bool × Sched × List Sleeper
interruption t (s, q) =
    if (s.thread t).interrupted
    then (true, set_thread s t (record (s.thread t) { interrupted = false }), q)
    else (false, s, q)

pub nanosleep_ends : Sched → List Sleeper → ℕ → ℕ → Bool × Sched × List Sleeper
nanosleep_ends s q t id = interruption t (awaken s q t id)
