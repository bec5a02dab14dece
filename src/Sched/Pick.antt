-- ===== src/Sched/Pick.antt =====
-- Which thread `pick_thread` runs.
use guestvm_guk.Base.{
  ℕ, ◌≤◌, ◌<◌, ◌≡◌, ◌≢◌, refl, true, false, not, ◌&&◌, arith, Option, none, some, [], ◌∷◌, ◌++◌,
  ◌==◌, if-true, if-false, sym, subst, ◌⊎◌, Bool-cases, inl, inr, length,
}
use guestvm_guk.Sched.{
  Sched, is_upcalled, unlink, requeue, eligible, set_running, run_thread, told, pick_thread,
  run_next, Search, found, nobody, corrupt,
}
use guestvm_guk.Sched.Queue.{count, count-unlink, length-unlink}
use guestvm_guk.Sched.Synced.{IsSynced, Agree, Agree-IsSynced, requeue-IsSynced}
use guestvm_guk.Sched.Eligible.{
  NoneEligible, FirstEligible, Finds, find_eligible-Finds, find_eligible-front, run_thread-eligible,
  switched, run_next-found, FirstEligible-eligible,
}

-- what `pick_thread` comes to, from the queue as `requeue` leaves it
abbrev pub Picks : Sched → ℕ → ℕ → Option ℕ → Option (ℕ × Sched) → Type 0
Picks s cpu idle chosen none =
    (t : ℕ) × (chosen ≡ some t)
    × NoneEligible s cpu s.ready_queue
    × ((s.thread t).running ≡ true)
    × ((s.thread t).cpu ≢ cpu)
Picks s cpu idle chosen (some (t, s')) =
    ((s'.thread t).running ≡ true)
    × (FirstEligible s cpu s.ready_queue t
        ⊎ (NoneEligible s cpu s.ready_queue
            × ((t ≡ idle) ⊎ ((s.upcalls_active ≡ true) × (chosen ≡ some t)))))

set_running-running : (s : Sched) (t : ℕ) → ((set_running s t).thread t).running ≡ true
set_running-running s t = ground arith

run_next-Picks :
    (s : Sched) (cpu prev idle : ℕ) (chosen : Option ℕ) (r : Search)
    → Finds s cpu s.ready_queue r
    → Picks s cpu idle chosen (run_next s cpu prev idle chosen r)
unfolding run_next
run_next-Picks s cpu prev idle chosen corrupt f = absurd f
run_next-Picks s cpu prev idle chosen (found t) f =
    rw (run_thread-eligible s cpu t (FirstEligible-eligible s cpu s.ready_queue t f))
      ((ground arith), inl f)
run_next-Picks s cpu prev idle none nobody f = (set_running-running s idle, inr (f, inl refl))
run_next-Picks s cpu prev idle (some t) nobody f = elim (Bool-cases s.upcalls_active) [
  | inl on ↦
      subst (Picks s cpu idle (some t)) (sym (if-true s.upcalls_active _ _ on)) (chosen_runs on)
  | inr off ↦
      subst (Picks s cpu idle (some t)) (sym (if-false s.upcalls_active _ _ off))
        (set_running-running s idle, inr (f, inl refl))
]
  where
    chosen_runs : s.upcalls_active ≡ true → Picks s cpu idle (some t) (run_thread s cpu t)
    chosen_runs on = elim (Bool-cases ((s.thread t).running && not ((s.thread t).cpu == cpu))) [
      | inl busy ↦
          subst (Picks s cpu idle (some t)) (sym (if-true _ _ _ busy))
            (t, refl, f, ground arith, (λ e. absurd (ground arith)))
      | inr ready ↦
          subst (Picks s cpu idle (some t)) (sym (if-false _ _ _ ready))
            (set_running-running s t, inr (f, inr (on, refl)))
    ]

-- `pick_thread` on a ready queue with no more threads than there have been identifiers: the thread
-- that it runs is the first of the queue that may run on this CPU, once the thread that has run has
-- gone to the end; if there is none, it is the choice of the VM's scheduler or the idle thread. It
-- stops the system only when the VM's scheduler chooses a thread that runs on another CPU.
pub pick_thread-Picks :
    (s : Sched) (cpu prev idle : ℕ) (chosen : Option ℕ)
    → length (requeue s prev idle).ready_queue ≤ s.thread_id
    → Picks (requeue s prev idle) cpu idle chosen (pick_thread s cpu prev idle chosen)
unfolding pick_thread
pick_thread-Picks s cpu prev idle chosen short =
    run_next-Picks (requeue s prev idle) cpu prev idle chosen _
      (find_eligible-Finds (requeue s prev idle) cpu s.thread_id _ short)

-- the state in which the thread that has run stands last
abbrev last_in_queue : Sched → ℕ → Sched
last_in_queue s prev = record s { ready_queue = unlink prev s.ready_queue ++ (prev ∷ []) }

requeue-last :
    (s : Sched) (prev idle : ℕ)
    → (s.thread prev).runnable ≡ true
    → is_upcalled s prev ≡ false
    → prev ≢ idle
    → requeue s prev idle ≡ last_in_queue s prev
unfolding requeue
requeue-last s prev idle runs ours ne_idle =
    if-true (not (is_upcalled s prev) && ((s.thread prev).runnable && not (prev == idle))) _ s
      (ground arith)

-- While the ready queue and the flags agree and another thread of the queue may run on this CPU,
-- `pick_thread` after a runnable thread of the microkernel that is not the idle thread runs one
-- that may and that is not the thread that has run, if the queue is no longer than the number of
-- thread identifiers given out.
pub pick_thread-round_robin :
    (s : Sched) (cpu prev idle u : ℕ) (chosen : Option ℕ)
    → IsSynced s
    → (s.thread prev).runnable ≡ true
    → is_upcalled s prev ≡ false
    → prev ≢ idle
    → u ≢ prev
    → 0 < count u s.ready_queue
    → eligible s cpu u ≡ true
    → length s.ready_queue ≤ s.thread_id
    → (t : ℕ) × (t ≢ prev)
      × (eligible s cpu t ≡ true)
      × ((s' : Sched) × (pick_thread s cpu prev idle chosen ≡ some (t, s')))
unfolding pick_thread eligible
pick_thread-round_robin s cpu prev idle u chosen v runs ours ne_idle ne queued can short =
    let (t, e, other, may) =
      find_eligible-front (last_in_queue s prev) cpu s.thread_id prev u (unlink prev s.ready_queue)
        (prev ∷ []) (ground (arith, count-unlink prev prev s.ready_queue, v prev))
        (ground (arith, count-unlink u prev s.ready_queue)) can
        (omega (arith, length-unlink prev s.ready_queue)) in
    (
      t,
      other,
      may,
      (
        switched (last_in_queue s prev) cpu prev t,
        rw (requeue-last s prev idle runs ours ne_idle, e)
            (run_next-found (last_in_queue s prev) cpu prev idle t chosen may),
      ),
    )

set_running-Agree : (s : Sched) (t : ℕ) → Agree s (set_running s t)
set_running-Agree s t = (refl, refl, λ u. (ground arith, ground arith, ground arith))

-- what `pick_thread` leaves of a state
abbrev pub Kept : Sched → Option (ℕ × Sched) → Type 0
Kept s none = Unit
Kept s (some (t, s')) = Agree s s'

run_thread-Kept : (s : Sched) (cpu t : ℕ) → Kept s (run_thread s cpu t)
run_thread-Kept s cpu t =
    elim (Bool-cases ((s.thread t).running && not ((s.thread t).cpu == cpu))) [
      | inl busy ↦ subst (Kept s) (sym (if-true _ _ _ busy)) tt
      | inr ready ↦ subst (Kept s) (sym (if-false _ _ _ ready)) (set_running-Agree s t)
    ]

told-Kept :
    (s0 s : Sched) (cpu prev : ℕ) (r : Option (ℕ × Sched)) → Kept s0 r → Kept s0 (told s cpu prev r)
told-Kept s0 s cpu prev none k = tt
told-Kept s0 s cpu prev (some (t, s')) k = elim (Bool-cases (is_upcalled s' prev)) [
  | inl on ↦ subst (Agree s0) (sym (if-true _ _ _ on)) k
  | inr off ↦ subst (Agree s0) (sym (if-false _ _ _ off)) k
]

pub run_next-Kept :
    (s : Sched) (cpu prev idle : ℕ) (chosen : Option ℕ) (r : Search)
    → Kept s (run_next s cpu prev idle chosen r)
unfolding run_next
run_next-Kept s cpu prev idle chosen corrupt = tt
run_next-Kept s cpu prev idle chosen (found t) = told-Kept s s cpu prev _ (run_thread-Kept s cpu t)
run_next-Kept s cpu prev idle none nobody = set_running-Agree s idle
run_next-Kept s cpu prev idle (some t) nobody = elim (Bool-cases s.upcalls_active) [
  | inl on ↦ subst (Kept s) (sym (if-true s.upcalls_active _ _ on)) (run_thread-Kept s cpu t)
  | inr off ↦ subst (Kept s) (sym (if-false s.upcalls_active _ _ off)) (set_running-Agree s idle)
]

-- `pick_thread` keeps the ready queue and the flags in agreement.
pub pick_thread-IsSynced :
    (s s' : Sched) (cpu prev idle t : ℕ) (chosen : Option ℕ)
    → IsSynced s
    → pick_thread s cpu prev idle chosen ≡ some (t, s')
    → IsSynced s'
unfolding pick_thread
pick_thread-IsSynced s s' cpu prev idle t chosen v e =
    Agree-IsSynced (requeue s prev idle) s'
      (subst (Kept (requeue s prev idle)) e
        (run_next-Kept (requeue s prev idle) cpu prev idle chosen _))
      (requeue-IsSynced s prev idle v)
