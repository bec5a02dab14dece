-- ===== src/Sched/Synced.antt =====
-- The agreement of the ready queue with the flags, under each operation.
use guestvm_guk.Base.{
  ℕ, ◌≡◌, true, false, not, ◌&&◌, ◌||◌, arith, some, if◌then◌else◌, if-true, if-false, sym, ◌∙◌,
  subst, ◌⊎◌, Bool-cases, inl, inr,
}
use guestvm_guk.Sched.{
  set_thread, log, detach_upcall, no_appsched_id, Sched, is_upcalled, unlink, block, db_wake, wake,
  attach_to_appsched, detach_from_appsched, requeue,
}
use guestvm_guk.Sched.Queue.{count, count-unlink, count-append}

-- A thread stands in the ready queue once if it is runnable and scheduled by the microkernel, and else
-- not at all.
abbrev pub IsSynced : Sched → Type 0
IsSynced s =
    (t : ℕ)
    → count t s.ready_queue ≡ (if (s.thread t).runnable && not (is_upcalled s t) then 1 else 0)

-- `block` keeps the ready queue and the flags in agreement.
pub block-IsSynced : (here : ℕ) (s : Sched) (t : ℕ) → IsSynced s → IsSynced (block here s t)
unfolding block
block-IsSynced here s t v u = ground (arith, v u, v t, count-unlink u t s.ready_queue)

-- So does `db_wake`.
pub db_wake-IsSynced : (here : ℕ) (s : Sched) (t : ℕ) → IsSynced s → IsSynced (db_wake here s t)
unfolding db_wake
db_wake-IsSynced here s t v u = ground (arith, v u, v t, count-append u t s.ready_queue)

-- Only the registers and the debugger's flags change where a wake does not reach the queue.
abbrev pub suspended : Sched → ℕ → Sched
suspended s t =
    set_thread s t
      (record (s.thread t) { regs = 0; req_debug_suspend = false; debug_suspend = true })

abbrev pub registers_lost : Sched → ℕ → Sched
registers_lost s t = set_thread s t (record (s.thread t) { regs = 0 })

pub wake-cases :
    (here : ℕ) (s s' : Sched) (t : ℕ)
    → wake here s t ≡ some s'
    → ((registers_lost s t ≡ s') × (((s.thread t).runnable || (s.thread t).debug_suspend) ≡ true))
      ⊎ (suspended s t ≡ s')
      ⊎ (db_wake here (registers_lost s t) t ≡ s')
unfolding wake
wake-cases here s s' t e = elim (Bool-cases (s.thread t).debug_suspend) [
  | inl a ↦ inl (cc (rw a at e), ground arith)
  | inr a ↦ elim (Bool-cases (s.thread t).req_debug_suspend) [
    | inl b ↦ inr (inl (cc (rw (a, b) at e)))
    | inr b ↦ elim (Bool-cases (s.thread t).dying) [
      | inl d ↦ cc (rw (a, b, d) at e)
      | inr d ↦ elim (Bool-cases (not (s.thread t).runnable || is_upcalled s t)) [
        | inl r ↦ inr (inr (cc (rw (a, b, d, r) at e)))
        | inr r ↦ inl (cc (rw (a, b, d, r) at e), ground arith)
      ]
    ]
  ]
]

registers_lost-IsSynced : (s : Sched) (t : ℕ) → IsSynced s → IsSynced (registers_lost s t)
registers_lost-IsSynced s t v u = ground (arith, v u)

suspended-IsSynced : (s : Sched) (t : ℕ) → IsSynced s → IsSynced (suspended s t)
suspended-IsSynced s t v u = ground (arith, v u)

-- So does `guk_wake`, where it returns.
pub wake-IsSynced :
    (here : ℕ) (s s' : Sched) (t : ℕ) → IsSynced s → wake here s t ≡ some s' → IsSynced s'
wake-IsSynced here s s' t v e = elim (wake-cases here s s' t e) [
  | inl p ↦ subst IsSynced p.0 (registers_lost-IsSynced s t v)
  | inr (inl p) ↦ subst IsSynced p (suspended-IsSynced s t v)
  | inr (inr p) ↦
      subst IsSynced p
        (db_wake-IsSynced here (registers_lost s t) t (registers_lost-IsSynced s t v))
]

-- Handing a thread to the VM's scheduler takes it off the ready queue.
pub attach_to_appsched-IsSynced :
    (here : ℕ) (s : Sched) (t id : ℕ) → IsSynced s → IsSynced (attach_to_appsched here s t id)
unfolding attach_to_appsched block
attach_to_appsched-IsSynced here s t id v u =
    ground (arith, v u, v t, block-IsSynced here s t v u, count-unlink u t s.ready_queue)

-- the thread as `guk_detach_from_appsched` wakes it
abbrev detached : ℕ → Sched → ℕ → Sched
detached here s t =
    set_thread (log (detach_upcall (s.thread t).appsched_id here) s) t
      (record (s.thread t) { appsched = false; appsched_id = no_appsched_id; runnable = false })

detached-IsSynced :
    (here : ℕ) (s : Sched) (t : ℕ)
    → (s.thread t).appsched ≡ true
    → s.upcalls_active ≡ true
    → IsSynced s
    → IsSynced (detached here s t)
detached-IsSynced here s t app active v u = ground (arith, v u, v t)

-- Taking a thread back from the VM's scheduler keeps the agreement.
pub detach_from_appsched-IsSynced :
    (here : ℕ) (s s' : Sched) (t : ℕ)
    → IsSynced s
    → (s.thread t).appsched ≡ true
    → detach_from_appsched here s t ≡ some s'
    → IsSynced s'
unfolding detach_from_appsched
detach_from_appsched-IsSynced here s s' t v app e = elim (Bool-cases s.upcalls_active) [
  | inl on ↦
      wake-IsSynced here (detached here s t) s' t (detached-IsSynced here s t app on v)
        (sym (if-true s.upcalls_active _ _ on) ∙ e)
  | inr off ↦
      let same : s ≡ s' = cc (sym (if-false s.upcalls_active _ _ off) ∙ e) in subst IsSynced same v
]

pub requeue-IsSynced : (s : Sched) (prev idle : ℕ) → IsSynced s → IsSynced (requeue s prev idle)
unfolding requeue
requeue-IsSynced s prev idle v u = ground (
  arith,
  v u,
  v prev,
  count-unlink u prev s.ready_queue,
  count-append u prev (unlink prev s.ready_queue),
)

-- a state with the queue and the flags of another
abbrev pub Agree : Sched → Sched → Type 0
Agree s s' =
    (s'.ready_queue ≡ s.ready_queue)
    × (s'.upcalls_active ≡ s.upcalls_active)
    × ((u : ℕ)
        → ((s'.thread u).runnable ≡ (s.thread u).runnable)
          × ((s'.thread u).appsched ≡ (s.thread u).appsched)
          × ((s'.thread u).dying ≡ (s.thread u).dying))

pub Agree-IsSynced : (s s' : Sched) → Agree s s' → IsSynced s → IsSynced s'
Agree-IsSynced s s' (q, a, f) v u = rw (q, a, (f u).0, (f u).1) (v u)
