-- ===== src/Sched/Life/Exits.antt =====
-- When a thread that exits comes to its call of the scheduler.
use guestvm_guk.Base.{
  ℕ, ◌<◌, ◌≡◌, ◌≢◌, refl, ap, ◌∙◌, subst, true, false, not, ◌||◌, arith, some, List, [], ◌∷◌, ◌++◌,
  if-false, Bool-cases, inl, inr,
}
use guestvm_guk.Sched.{Sched, block, wake, db_wake, is_upcalled}
use guestvm_guk.Sched.Queue.{count}
use guestvm_guk.Sched.Synced.{suspended, registers_lost}
use guestvm_guk.Sched.Wakes.{wake-Stays}
use guestvm_guk.Sched.Life.{set_dying, Threads, unjoin, wake_joiners, with_sched, exit_thread}
use guestvm_guk.Sched.Life.Joiners.{Exited, exit_thread-Exited, exit-joiners, unjoin-dying}

-- `guk_wake` returns for a thread that is not dying.
pub wake-returns :
    (here : ℕ) (s : Sched) (t : ℕ)
    → (s.thread t).dying ≡ false
    → (s' : Sched) × (wake here s t ≡ some s')
unfolding wake
wake-returns here s t lives = elim (Bool-cases (s.thread t).debug_suspend) [
  | inl a ↦ (registers_lost s t, rw a refl)
  | inr a ↦ elim (Bool-cases (s.thread t).req_debug_suspend) [
    | inl b ↦ (suspended s t, rw (a, b) refl)
    | inr b ↦ elim (Bool-cases (not (s.thread t).runnable || is_upcalled s t)) [
      | inl r ↦ (db_wake here (registers_lost s t) t, rw (a, b, lives, r) refl)
      | inr r ↦ (registers_lost s t, rw (a, b, lives, r) refl)
    ]
  ]
]

-- No thread of the list is dying.
abbrev pub AllLive : List ℕ → Sched → Type 0
AllLive ts s = (u : ℕ) → 0 < count u ts → (s.thread u).dying ≡ false

wake_joiners-returns :
    (here joinee : ℕ) (ts : List ℕ) (s : Sched)
    → AllLive ts s
    → (s' : Sched) × (wake_joiners here joinee ts s ≡ some s')
unfolding wake_joiners count
wake_joiners-returns here joinee [] s v = (s, refl)
wake_joiners-returns here joinee (t ∷ ts) s v =
    let (s1, f) =
      wake-returns here (unjoin s joinee t) t (unjoin-dying s joinee t t ∙ v t (ground arith)) in
    let (s', g) = wake_joiners-returns here joinee ts s1 (λ u h.
      (wake-Stays here (unjoin s joinee t) s1 t f u).2
      ∙ unjoin-dying s joinee t u
      ∙ v u (omega (arith, h))) in
    (s', rw (f, wake_joiners) g)

exiting-dying :
    (here : ℕ) (s : Sched) (t u : ℕ)
    → u ≢ t
    → ((set_dying (block here s t) t).thread u).dying ≡ (s.thread u).dying
unfolding block
exiting-dying here s t u ne = ground arith

-- Where the thread that exits runs, is not among its own joiners, and none of these is dying,
-- `exit_thread` comes to its call of the scheduler: the thread is dying and the last of the
-- zombies, nobody is left among its joiners, and each thread that was is no longer joining and is
-- runnable or held by the debugger.
pub exit_thread-returns :
    (here : ℕ) (ts : Threads) (t : ℕ)
    → (ts.sched.thread t).running ≡ true
    → AllLive (ts.sched.thread t).joiners ts.sched
    → count t (ts.sched.thread t).joiners ≡ 0
    → (ts' : Threads) × (exit_thread here ts t ≡ some ts') × Exited ts t ts'
unfolding exit_thread
exit_thread-returns here ts t runs live other =
    (done, returns, exit_thread-Exited here ts done t returns)
  where
    s2 : Sched
    s2 = set_dying (block here ts.sched t) t

    lives : AllLive (s2.thread t).joiners s2
    lives u h =
        let k = subst (λ l. 0 < count u l) (exit-joiners here ts.sched t) h in
        exiting-dying here ts.sched t u
          (λ e. absurd (omega (arith, k, other, ap (λ v. count v (ts.sched.thread t).joiners) e)))
        ∙ live u k

    woken : (s' : Sched) × (wake_joiners here t (s2.thread t).joiners s2 ≡ some s')
    woken = wake_joiners-returns here t (s2.thread t).joiners s2 lives

    zombies : Threads
    zombies = record ts { zombie_queue = ts.zombie_queue ++ (t ∷ []) }

    done : Threads
    done = record zombies { sched = woken.0 }

    returns : exit_thread here ts t ≡ some done
    returns =
        if-false (not (ts.sched.thread t).running) _ _ (ap not runs)
        ∙ ap (with_sched zombies) woken.1
