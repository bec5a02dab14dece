-- ===== src/Sched/Schedule/Runs.antt =====
-- Which thread runs after `guk_schedule`.
use guestvm_guk.Base.{
  ℕ, ◌≡◌, ◌≢◌, ◌⊎◌, refl, sym, ◌∙◌, subst, Bool, true, false, not, ◌&&◌, arith, Option, some, List,
  ◌==◌, if-true, if-false, Bool-cases, Option-cases, inl, inr,
}
use guestvm_guk.Sched.{Sched, pick_thread}
use guestvm_guk.Sched.Synced.{IsSynced}
use guestvm_guk.Sched.Pick.{pick_thread-IsSynced}
use guestvm_guk.Sched.Sleep.{Sleeper, wake_expired}
use guestvm_guk.Sched.Sleep.Synced.{Agrees, wake_expired-Agrees}
use guestvm_guk.Sched.Sleep.Cpus.{CpusKept, wake_expired-CpusKept}
use guestvm_guk.Sched.Schedule.{next_thread, switch_to, switch_next, schedule}

-- what is so of the thread that runs next, and of the one before it
pub record Runs (cpu prev idle t : ℕ) (s : Sched) : Type 0 where
  pub ready : ((s.thread t).runnable ≡ true) ⊎ (t ≡ idle)
  pub lives : (s.thread t).dying ≡ false
  pub here : (s.thread t).cpu ≡ cpu
  pub stopped : prev ≢ t → (s.thread prev).running ≡ false
  pub synced : IsSynced s

switch_to-Runs :
    (s : Sched) (cpu prev idle t : ℕ)
    → IsSynced s
    → ((s.thread t).runnable ≡ true) ⊎ (t ≡ idle)
    → (s.thread t).dying ≡ false
    → Runs cpu prev idle t (switch_to s cpu prev t)
switch_to-Runs s cpu prev idle t v ready lives = record {
  ready = ground arith;
  lives = ground arith;
  here = ground arith;
  stopped = λ ne. ground arith;
  synced = λ u. ground (arith, v u);
}

-- the thread that is to run next may run
abbrev pub IsNext : ℕ → ℕ × Sched → Type 0
IsNext idle (t, s) = IsSynced s × (((s.thread t).runnable ≡ true) ⊎ (t ≡ idle))

next_thread-IsNext :
    (up : Bool) (s : Sched) (cpu prev idle : ℕ) (chosen : Option ℕ) (r : ℕ × Sched)
    → IsSynced s
    → next_thread up s cpu prev idle chosen ≡ some r
    → IsNext idle r
unfolding next_thread
next_thread-IsNext false s cpu prev idle chosen r v e = subst (IsNext idle) (same e) (v, inr refl)
  where
    same : some (idle, s) ≡ some r → (idle, s) ≡ r
    same f = cc
next_thread-IsNext true s cpu prev idle chosen r v e =
    elim (Option-cases (pick_thread s cpu prev idle chosen)) [
      | inl gone ↦ cc (rw (gone, next_thread) at e)
      | inr ((t, s'), f) ↦ elim (Bool-cases (not (s'.thread t).runnable && not (t == idle))) [
        | inl bad ↦ cc (sym (if-true _ _ _ bad) ∙ (rw (f, next_thread) at e))
        | inr good ↦
            let same : (t, s') ≡ r = cc (sym (if-false _ _ _ good) ∙ (rw (f, next_thread) at e)) in
            subst (IsNext idle) same
              (pick_thread-IsSynced s s' cpu prev idle t chosen v f, ground (arith, good))
      ]
    ]

-- the result of the switch
abbrev pub RunsIn : ℕ → ℕ → ℕ → ℕ × Sched × List Sleeper → Type 0
RunsIn cpu prev idle (t, s, q) = Runs cpu prev idle t s

switch_next-RunsIn :
    (cpu prev idle : ℕ) (q : List Sleeper) (p : ℕ × Sched) (r : ℕ × Sched × List Sleeper)
    → IsNext idle p
    → switch_next cpu prev q (some p) ≡ some r
    → RunsIn cpu prev idle r
switch_next-RunsIn cpu prev idle q (t, s) r (v, ready) e = elim (Bool-cases (s.thread t).dying) [
  | inl dies ↦ cc (sym (if-true _ _ _ dies) ∙ e)
  | inr lives ↦
      let same : (t, switch_to s cpu prev t, q) ≡ r = cc (sym (if-false _ _ _ lives) ∙ e) in
      subst (RunsIn cpu prev idle) same (switch_to-Runs s cpu prev idle t v ready lives)
]

-- From a state in which the ready queue and the flags agree, and where `guk_schedule` does not stop
-- the system: the thread that runs next is runnable or the idle thread, is not dying and is on the
-- CPU of the thread before it; if that is another, its running flag is clear; and the ready queue
-- and the flags agree.
pub schedule-RunsIn :
    (here now : ℕ) (up : Bool) (s : Sched) (q : List Sleeper) (prev idle : ℕ) (chosen : Option ℕ)
    (r : ℕ × Sched × List Sleeper)
    → IsSynced s
    → schedule here now up s q prev idle chosen ≡ some r
    → RunsIn (s.thread prev).cpu prev idle r
unfolding schedule
schedule-RunsIn here now up s q prev idle chosen r v e =
    elim (Option-cases (wake_expired here now s q)) [
      | inl gone ↦ cc (rw (gone, schedule) at e)
      | inr ((s1, q1), f) ↦
          let cpu = (s1.thread prev).cpu in
          let v1 : IsSynced s1 = subst Agrees f (wake_expired-Agrees here now q s v) in
          let e1 : switch_next cpu prev q1 (next_thread up s1 cpu prev idle chosen) ≡ some r =
            rw (f, schedule) at e in
          elim (Option-cases (next_thread up s1 cpu prev idle chosen)) [
            | inl stops ↦ cc (rw stops at e1)
            | inr (p, g) ↦
                subst (λ c. RunsIn c prev idle r)
                  ((subst (CpusKept s) f (wake_expired-CpusKept here now q s)) prev)
                  (switch_next-RunsIn cpu prev idle q1 p r
                    (next_thread-IsNext up s1 cpu prev idle chosen p v1 g) (rw g at e1))
          ]
    ]
