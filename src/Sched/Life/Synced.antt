-- ===== src/Sched/Life/Synced.antt =====
-- The agreement of the ready queue with the flags, at the end of threads.
use guestvm_guk.Base.{
  ℕ, refl, sym, subst, Bool, true, false, not, ◌||◌, arith, Option, none, some, List, [], ◌∷◌, ◌++◌,
  if◌then◌else◌, if-true, if-false, Bool-cases, Option-cases, inl, inr,
}
use guestvm_guk.Sched.{Sched, unlink, block, wake}
use guestvm_guk.Sched.Synced.{IsSynced, Agree-IsSynced, block-IsSynced, wake-IsSynced}
use guestvm_guk.Sched.Life.{
  set_joining, set_dying, set_interrupted, clear_regs, set_joiners, Threads, unjoin, wake_joiners,
  join_thread, with_sched, exit_thread, reapable, reap_dead, leave_joiners, interrupt,
}

-- a result that is in agreement, if there is one
abbrev pub StaysSynced : Option Sched → Type 0
StaysSynced none = Unit
StaysSynced (some s) = IsSynced s

abbrev pub ThreadsAgree : Option Threads → Type 0
ThreadsAgree none = Unit
ThreadsAgree (some ts) = IsSynced ts.sched

set_joining-IsSynced : (s : Sched) (t : ℕ) (b : Bool) → IsSynced s → IsSynced (set_joining s t b)
set_joining-IsSynced s t b v u = ground (arith, v u)

set_dying-IsSynced : (s : Sched) (t : ℕ) → IsSynced s → IsSynced (set_dying s t)
set_dying-IsSynced s t v u = ground (arith, v u)

set_interrupted-IsSynced :
    (s : Sched) (t : ℕ) (b : Bool) → IsSynced s → IsSynced (set_interrupted s t b)
set_interrupted-IsSynced s t b v u = ground (arith, v u)

clear_regs-IsSynced : (s : Sched) (t : ℕ) → IsSynced s → IsSynced (clear_regs s t)
clear_regs-IsSynced s t v u = ground (arith, v u)

set_joiners-IsSynced :
    (s : Sched) (t : ℕ) (js : List ℕ) → IsSynced s → IsSynced (set_joiners s t js)
set_joiners-IsSynced s t js v u = ground (arith, v u)

unjoin-IsSynced : (s : Sched) (joinee t : ℕ) → IsSynced s → IsSynced (unjoin s joinee t)
unjoin-IsSynced s joinee t v =
    set_joiners-IsSynced (set_joining s t false) joinee _ (set_joining-IsSynced s t false v)

leave_joiners-IsSynced : (s : Sched) (t : ℕ) → IsSynced s → IsSynced (leave_joiners s t)
leave_joiners-IsSynced s t v =
    Agree-IsSynced s (leave_joiners s t)
      (refl, refl, λ u. (ground arith, ground arith, ground arith)) v

wake-StaysSynced : (here : ℕ) (s : Sched) (t : ℕ) → IsSynced s → StaysSynced (wake here s t)
wake-StaysSynced here s t v = elim (Option-cases (wake here s t)) [
  | inl gone ↦ subst StaysSynced (sym gone) tt
  | inr (s', e) ↦ subst StaysSynced (sym e) (wake-IsSynced here s s' t v e)
]

-- What follows a result that is in agreement.
after-StaysSynced :
    (r : Option Sched) (f : Sched → Option Sched)
    → StaysSynced r
    → ((s : Sched) → IsSynced s → StaysSynced (f s))
    → StaysSynced (elim r [ none ↦ none | some s ↦ f s ])
after-StaysSynced none f a b = tt
after-StaysSynced (some s) f a b = b s a

pub wake_joiners-StaysSynced :
    (here joinee : ℕ) (ts : List ℕ) (s : Sched)
    → IsSynced s
    → StaysSynced (wake_joiners here joinee ts s)
unfolding wake_joiners
wake_joiners-StaysSynced here joinee [] s v = v
wake_joiners-StaysSynced here joinee (t ∷ ts) s v =
    after-StaysSynced (wake here (unjoin s joinee t) t) (wake_joiners here joinee ts)
      (wake-StaysSynced here (unjoin s joinee t) t (unjoin-IsSynced s joinee t v))
      (wake_joiners-StaysSynced here joinee ts)

pub join_thread-IsSynced :
    (here : ℕ) (s : Sched) (this joinee : ℕ)
    → IsSynced s
    → IsSynced (join_thread here s this joinee)
unfolding join_thread
join_thread-IsSynced here s this joinee v = elim (Bool-cases (s.thread this).dying) [
  | inl dies ↦ subst IsSynced (sym (if-true _ _ _ dies)) v
  | inr lives ↦ subst IsSynced (sym (if-false _ _ _ lives)) (
      set_joiners-IsSynced (set_joining (block here (clear_regs s this) this) this true) joinee _ (
        set_joining-IsSynced (block here (clear_regs s this) this) this true
          (block-IsSynced here (clear_regs s this) this (clear_regs-IsSynced s this v))))
]

pub interrupt-StaysSynced :
    (here : ℕ) (s : Sched) (t : ℕ) → IsSynced s → StaysSynced (interrupt here s t)
unfolding interrupt
interrupt-StaysSynced here s t v =
    elim (Bool-cases
      (not ((s.thread t).runnable || ((s.thread t).running || (s.thread t).dying)))) [
        | inl stopped ↦ subst StaysSynced (sym (if-true _ _ _ stopped)) (
            wake-StaysSynced here (set_interrupted (rested (s.thread t).joining) t true) t (
              set_interrupted-IsSynced (rested (s.thread t).joining) t true
                (left (s.thread t).joining)))
        | inr active ↦ subst StaysSynced (sym (if-false _ _ _ active)) v
      ]
  where
    rested : Bool → Sched
    rested b = if b then leave_joiners s t else s

    left : (b : Bool) → IsSynced (rested b)
    left true = leave_joiners-IsSynced s t v
    left false = v

with_sched-ThreadsAgree :
    (ts : Threads) (r : Option Sched) → StaysSynced r → ThreadsAgree (with_sched ts r)
with_sched-ThreadsAgree ts none a = tt
with_sched-ThreadsAgree ts (some s) a = a

pub exit_thread-ThreadsAgree :
    (here : ℕ) (ts : Threads) (t : ℕ) → IsSynced ts.sched → ThreadsAgree (exit_thread here ts t)
unfolding exit_thread
exit_thread-ThreadsAgree here ts t v = elim (Bool-cases (not (ts.sched.thread t).running)) [
  | inl stopped ↦ subst ThreadsAgree (sym (if-true _ _ _ stopped)) tt
  | inr runs ↦ subst ThreadsAgree (sym (if-false _ _ _ runs)) (
      with_sched-ThreadsAgree (record ts { zombie_queue = ts.zombie_queue ++ (t ∷ []) }) _
        (wake_joiners-StaysSynced here t _ (set_dying (block here ts.sched t) t)
          (set_dying-IsSynced (block here ts.sched t) t (block-IsSynced here ts.sched t v))))
]

after-ThreadsAgree :
    (r : Option Sched) (f : Sched → Option Threads)
    → StaysSynced r
    → ((s : Sched) → IsSynced s → ThreadsAgree (f s))
    → ThreadsAgree (elim r [ none ↦ none | some s ↦ f s ])
after-ThreadsAgree none f a b = tt
after-ThreadsAgree (some s) f a b = b s a

pub reap_dead-ThreadsAgree :
    (here : ℕ) (zombies : List ℕ) (ts : Threads)
    → IsSynced ts.sched
    → ThreadsAgree (reap_dead here zombies ts)
unfolding reap_dead
reap_dead-ThreadsAgree here [] ts v = v
reap_dead-ThreadsAgree here (t ∷ zombies) ts v = elim (Bool-cases (reapable here ts.sched t)) [
  | inl dead ↦ subst ThreadsAgree (sym (if-true _ _ _ dead)) (
      after-ThreadsAgree (wake_joiners here t (ts.sched.thread t).joiners ts.sched) _
        (wake_joiners-StaysSynced here t (ts.sched.thread t).joiners ts.sched v)
        (λ s1 v1. reap_dead-ThreadsAgree here zombies (reaped s1) v1))
  | inr kept ↦
      subst ThreadsAgree (sym (if-false _ _ _ kept)) (reap_dead-ThreadsAgree here zombies ts v)
]
  where
    reaped : Sched → Threads
    reaped s1 = record ts {
      sched = s1;
      zombie_queue = unlink t ts.zombie_queue;
      freed = t ∷ ts.freed;
    }
