-- ===== src/Completion/Runs.antt =====
-- Waits and posts of one completion, with wakes and blocks of the scheduler, in any order.
use guestvm_guk.Base.{
  ℕ, ◌+◌, ◌≤◌, ◌<◌, ◌≡◌, ◌≢◌, refl, sym, ap, subst, true, arith, some, ◌==◌, if-true, if-false,
  Bool-cases, inl, inr,
}
use guestvm_guk.Sched.{Sched, block, wake}
use guestvm_guk.Sched.Queue.{count, count-unlink}
use guestvm_guk.Sched.Wakes.{awake, wake-Stays}
use guestvm_guk.Completion.{
  Completion, Wait, sleeps, returns, wait_begins, wait_resumes, all_of_them, complete, complete_all,
}
use guestvm_guk.Completion.Waits.{Posted, complete-Posted, complete_all-Posted}

-- One step on the CPU `here`. A waiter is not blocked by others, since only a thread that runs blocks.
pub data Step (c c' : Completion) : Type 0 where
  begins_sleep : (here t : ℕ) → wait_begins here c t ≡ sleeps c' → Step c c'
  begins_return : (here t : ℕ) → wait_begins here c t ≡ returns c' → Step c c'
  resumes_sleep : (here t : ℕ) → wait_resumes here c t ≡ sleeps c' → Step c c'
  resumes_return : (here t : ℕ) → wait_resumes here c t ≡ returns c' → Step c c'
  completes : (here : ℕ) → complete here c ≡ some c' → Step c c'
  completes_all : (here : ℕ) → complete_all here c ≡ some c' → Step c c'
  wakes :
      (here t : ℕ) (s : Sched)
      → wake here c.sched t ≡ some s
      → record c { sched = s } ≡ c'
      → Step c c'
  blocks :
      (here t : ℕ)
      → count t c.waiters ≡ 0
      → record c { sched = block here c.sched t } ≡ c'
      → Step c c'

pub data Steps (c'' : Completion) : Completion → Type 0 where
  done : Steps c'' c''
  step : (c c' : Completion) → Step c c' → Steps c'' c' → Steps c'' c

-- While the completion is posted, no waiter is blocked.
abbrev pub NoneLost : Completion → Type 0
NoneLost c = 0 < c.done → (u : ℕ) → 0 < count u c.waiters → awake c.sched u ≡ true

-- A wait that goes to sleep leaves a completion that is not posted.
Waited : Completion → ℕ → Wait → Type 0
Waited c n (sleeps c') = (c'.done ≡ 0) × (c.done ≡ 0)
Waited c n (returns c') =
    (c'.done + 1 ≡ c.done)
    × (c'.sched ≡ c.sched)
    × ((u : ℕ) → count u c'.waiters ≤ count u c.waiters)

begins-Waited : (here : ℕ) (c : Completion) (t : ℕ) → Waited c t (wait_begins here c t)
unfolding wait_begins Waited
begins-Waited here c t = elim (Bool-cases (c.done == 0)) [
  | inl none_left ↦ subst (Waited c t) (sym (if-true _ _ _ none_left)) (ground arith, ground arith)
  | inr some_left ↦
      subst (Waited c t) (sym (if-false _ _ _ some_left))
        (ground (arith, some_left), refl, λ u. omega arith)
]

resumes-Waited : (here : ℕ) (c : Completion) (t : ℕ) → Waited c t (wait_resumes here c t)
unfolding wait_resumes Waited
resumes-Waited here c t = elim (Bool-cases (c.done == 0)) [
  | inl none_left ↦ subst (Waited c t) (sym (if-true _ _ _ none_left)) (ground arith, ground arith)
  | inr some_left ↦
      subst (Waited c t) (sym (if-false _ _ _ some_left))
        (ground (arith, some_left), refl, λ u. ground (arith, count-unlink u t c.waiters))
]

Waited-NoneLost : (c c' : Completion) (t : ℕ) → Waited c t (sleeps c') → NoneLost c'
unfolding Waited
Waited-NoneLost c c' t p pos u h = absurd (omega (arith, p.0))

Waited-stays-NoneLost :
    (c c' : Completion) (t : ℕ) → Waited c t (returns c') → NoneLost c → NoneLost c'
unfolding Waited
Waited-stays-NoneLost c c' t (d, s, w) v pos u h = rw s (v (omega arith) u (omega (arith, w u)))

Posted-NoneLost : (n : ℕ) (c c' : Completion) → Posted n c c' → NoneLost c'
Posted-NoneLost n c c' p pos u h = p.awakes u (subst (λ q. 0 < count u q) p.waiters h)

block-awake :
    (here : ℕ) (s : Sched) (t u : ℕ) → t ≢ u → awake s u ≡ true → awake (block here s t) u ≡ true
unfolding block
block-awake here s t u ne h = ground arith

Step-NoneLost : (c c' : Completion) → Step c c' → NoneLost c → NoneLost c'
Step-NoneLost c c' (begins_sleep here t e) v =
    Waited-NoneLost c c' t (subst (Waited c t) e (begins-Waited here c t))
Step-NoneLost c c' (begins_return here t e) v =
    Waited-stays-NoneLost c c' t (subst (Waited c t) e (begins-Waited here c t)) v
Step-NoneLost c c' (resumes_sleep here t e) v =
    Waited-NoneLost c c' t (subst (Waited c t) e (resumes-Waited here c t))
Step-NoneLost c c' (resumes_return here t e) v =
    Waited-stays-NoneLost c c' t (subst (Waited c t) e (resumes-Waited here c t)) v
Step-NoneLost c c' (completes here e) v = Posted-NoneLost 1 c c' (complete-Posted here c c' e)
Step-NoneLost c c' (completes_all here e) v =
    Posted-NoneLost all_of_them c c' (complete_all-Posted here c c' e)
Step-NoneLost c c' (wakes here t s e f) v =
    subst NoneLost f (λ pos u h. (wake-Stays here c.sched s t e u).3 (v pos u h))
Step-NoneLost c c' (blocks here t other f) v = subst NoneLost f (λ pos u h.
    block-awake here c.sched t u (λ same. absurd (omega (arith, ap (λ k. count k c.waiters) same)))
      (v pos u h))

-- However threads begin to wait and wait again, completions are posted and other threads block and
-- wake, in any order: while the completion is posted, each thread that waits for it is runnable or
-- held by the debugger, if that was so at first.
pub Steps-NoneLost : (c'' c : Completion) → Steps c'' c → NoneLost c → NoneLost c''
Steps-NoneLost c'' c done v = v
Steps-NoneLost c'' c (step _ c' one more) v = Steps-NoneLost c'' c' more (Step-NoneLost c c' one v)

-- how many threads a step lets go on, and how many it permits to
abbrev pub gone_on : (c c' : Completion) → Step c c' → ℕ
gone_on c c' (begins_sleep here t e) = 0
gone_on c c' (begins_return here t e) = 1
gone_on c c' (resumes_sleep here t e) = 0
gone_on c c' (resumes_return here t e) = 1
gone_on c c' (completes here e) = 0
gone_on c c' (completes_all here e) = 0
gone_on c c' (wakes here t s e f) = 0
gone_on c c' (blocks here t other f) = 0

abbrev pub permits : (c c' : Completion) → Step c c' → ℕ
permits c c' (begins_sleep here t e) = 0
permits c c' (begins_return here t e) = 0
permits c c' (resumes_sleep here t e) = 0
permits c c' (resumes_return here t e) = 0
permits c c' (completes here e) = 1
permits c c' (completes_all here e) = all_of_them
permits c c' (wakes here t s e f) = 0
permits c c' (blocks here t other f) = 0

-- the same over a run
pub all_gone_on : (c'' c : Completion) → Steps c'' c → ℕ
all_gone_on c'' c done = 0
all_gone_on c'' c (step _ c' one more) = gone_on c c' one + all_gone_on c'' c' more

pub all_permits : (c'' c : Completion) → Steps c'' c → ℕ
all_permits c'' c done = 0
all_permits c'' c (step _ c' one more) = permits c c' one + all_permits c'' c' more

kept-Waited : (c c' : Completion) (t : ℕ) → Waited c t (sleeps c') → c'.done ≤ c.done
unfolding Waited
kept-Waited c c' t p = omega (arith, p.0)

spent-Waited : (c c' : Completion) (t : ℕ) → Waited c t (returns c') → 1 + c'.done ≤ c.done
unfolding Waited
spent-Waited c c' t p = omega (arith, p.0)

Step-permits :
    (c c' : Completion) (one : Step c c') → gone_on c c' one + c'.done ≤ c.done + permits c c' one
Step-permits c c' (begins_sleep here t e) =
    omega (arith, kept-Waited c c' t (subst (Waited c t) e (begins-Waited here c t)))
Step-permits c c' (begins_return here t e) =
    omega (arith, spent-Waited c c' t (subst (Waited c t) e (begins-Waited here c t)))
Step-permits c c' (resumes_sleep here t e) =
    omega (arith, kept-Waited c c' t (subst (Waited c t) e (resumes-Waited here c t)))
Step-permits c c' (resumes_return here t e) =
    omega (arith, spent-Waited c c' t (subst (Waited c t) e (resumes-Waited here c t)))
Step-permits c c' (completes here e) = omega (arith, (complete-Posted here c c' e).done)
Step-permits c c' (completes_all here e) = omega (arith, (complete_all-Posted here c c' e).done)
Step-permits c c' (wakes here t s e f) = omega (arith, ap Completion.done f)
Step-permits c c' (blocks here t other f) = omega (arith, ap Completion.done f)

-- In any run, the threads that come back from `guk_wait_for_completion`, with the posts that are
-- left, are at most the posts at first and those made, where `guk_complete_all` counts as 2^31 - 1.
pub all_gone_on-permits :
    (c'' c : Completion) (run : Steps c'' c)
    → all_gone_on c'' c run + c''.done ≤ c.done + all_permits c'' c run
unfolding all_gone_on all_permits
all_gone_on-permits c'' c done = omega arith
all_gone_on-permits c'' c (step _ c' one more) =
    omega (arith, Step-permits c c' one, all_gone_on-permits c'' c' more)
