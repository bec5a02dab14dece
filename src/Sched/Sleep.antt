-- ===== src/Sched/Sleep.antt =====
-- The sleep queue of sched.c: the sleeping threads, ordered by the time at which they wake up.
pub mod Laws
pub mod Synced
pub mod Cpus
pub mod Timers
use guestvm_guk.Base.{
  ℕ, ◌+◌, Bool, true, false, ◌||◌, Option, none, some, List, [], ◌∷◌, ltb, leb, ◌==◌, if◌then◌else◌,
}
use guestvm_guk.Sched.{Sched, Thread, wake}

-- `struct sleep_queue`, of which `entry` is the address
pub record Sleeper : Type 0 where
  pub entry : ℕ
  pub thread : ℕ
  pub wakeup_time : ℕ
  pub active : Bool
  pub expired : Bool

-- The walk of `guk_sleep_queue_add` stops at the first entry that wakes up later.
pub add_by_time : Sleeper → List Sleeper → List Sleeper
add_by_time sq [] = sq ∷ []
add_by_time sq (entry ∷ q) =
    if ltb sq.wakeup_time entry.wakeup_time then sq ∷ entry ∷ q else entry ∷ add_by_time sq q

-- `guk_sleep_queue_add`
pub sleep_queue_add : Sleeper → List Sleeper → List Sleeper
sleep_queue_add sq q = add_by_time (record sq { active = true }) q

-- one entry before the rest of the queue
abbrev pub cons_entry : Sleeper → Option (Sched × List Sleeper) → Option (Sched × List Sleeper)
cons_entry e none = none
cons_entry e (some (s, q)) = some (s, e ∷ q)

-- `wake_expired` on the CPU `here` at the time `now`; `none` is the `BUG_ON` of `guk_wake`.
unfoldable pub wake_expired : ℕ → ℕ → Sched → List Sleeper → Option (Sched × List Sleeper)
wake_expired here now s [] = some (s, [])
wake_expired here now s (sq ∷ q) =
    let rest = cons_entry sq (wake_expired here now s q) in
    let woken : Option (Sched × List Sleeper) = elim (wake here s sq.thread) [
      | none ↦ none
      | some s1 ↦ cons_entry (record sq { expired = true }) (wake_expired here now s1 q)
    ] in
    if sq.expired then rest else if leb sq.wakeup_time now then woken else some (s, sq ∷ q)

-- `MAX_SLEEP`, in nanoseconds
abbrev pub max_sleep : ℕ
max_sleep = 10000000000

abbrev pub next_timeout : Sched → List Sleeper → ℕ → ℕ → ℕ
next_timeout s [] cpu later = later
next_timeout s (sq ∷ q) cpu later =
    let th = s.thread sq.thread in if th.ukernel || (th.cpu == cpu) then sq.wakeup_time else later

-- `blocking_time`, which reads the clock twice; `none` is -1, for a timer that has expired.
pub blocking_time : Sched → List Sleeper → ℕ → ℕ → ℕ → Option ℕ
blocking_time s q cpu orig now =
    let wakeup_time = next_timeout s q cpu (now + max_sleep) in
    if ltb wakeup_time orig then none else some wakeup_time
