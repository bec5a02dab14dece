-- ===== src/Completion/Waits.antt =====
-- Who is awake once a completion is posted.
use guestvm_guk.Base.{
  ℕ, ◌-◌, ◌<◌, ◌≡◌, refl, sym, subst, true, arith, some, List, [], ◌∷◌, ◌==◌, if-false,
  Option-cases, inl, inr, ℕ_discrete,
}
use guestvm_guk.Sched.{Sched, wake, unlink}
use guestvm_guk.Sched.Queue.{count}
use guestvm_guk.Sched.Wakes.{awake, wake-Stays, wake-awake}
use guestvm_guk.Completion.{
  Completion, wake_up, returns, wait_resumes, with_sched, all_of_them, complete, complete_all,
}

-- the effect of `wake_up` on a queue
pub record WokenUp (q : List ℕ) (s s' : Sched) : Type 0 where
  pub all : (u : ℕ) → 0 < count u q → awake s' u ≡ true
  pub kept : (u : ℕ) → awake s u ≡ true → awake s' u ≡ true

pub wake_up-WokenUp :
    (here : ℕ) (q : List ℕ) (s s' : Sched) → wake_up here q s ≡ some s' → WokenUp q s s'
unfolding wake_up count
wake_up-WokenUp here [] s s' e =
    let same : s ≡ s' = cc e in
    subst (WokenUp [] s) same (record { all = λ u h. absurd (omega arith); kept = λ u h. h })
wake_up-WokenUp here (t ∷ q) s s' e = elim (Option-cases (wake here s t)) [
  | inl gone ↦ cc (rw (gone, wake_up) at e)
  | inr (s1, f) ↦
      let w = wake_up-WokenUp here q s1 s' (rw (f, wake_up) at e) in
      record {
        all = λ u h. elim (ℕ_discrete u t) [
          | yes same ↦
              subst (λ k. awake s' k ≡ true) (sym same) (w.kept t (wake-awake here s s1 t f))
          | no ne ↦ w.all u (ground arith)
        ];
        kept = λ u h. w.kept u ((wake-Stays here s s1 t f u).3 h);
      }
]

-- A completion as it stands after a post: each waiter is awake and, when it comes to run, returns.
pub record Posted (n : ℕ) (c c' : Completion) : Type 0 where
  pub done : c'.done ≡ n
  pub waiters : c'.waiters ≡ c.waiters
  pub awakes : (u : ℕ) → 0 < count u c.waiters → awake c'.sched u ≡ true
  pub first :
      (here u : ℕ)
      → wait_resumes here c' u ≡ returns (record c' { done = n - 1; waiters = unlink u c.waiters })

resumes :
    (here n u : ℕ) (c : Completion) (s : Sched)
    → 0 < n
    → wait_resumes here (record c { done = n; sched = s }) u
      ≡ returns (record { done = n - 1; waiters = unlink u c.waiters; sched = s })
unfolding wait_resumes
resumes here n u c s pos = if-false (n == 0) _ _ (ground arith)

post-Posted :
    (here n : ℕ) (c c' : Completion)
    → 0 < n
    → with_sched (record c { done = n }) (wake_up here c.waiters c.sched) ≡ some c'
    → Posted n c c'
post-Posted here n c c' pos e = elim (Option-cases (wake_up here c.waiters c.sched)) [
  | inl gone ↦ cc (rw gone at e)
  | inr (s, f) ↦
      let same : record c { done = n; sched = s } ≡ c' = cc (rw f at e) in
      subst (Posted n c) same (record {
        done = refl;
        waiters = refl;
        awakes = (wake_up-WokenUp here c.waiters c.sched s f).all;
        first = λ here' u. resumes here' n u c s pos;
      })
]

pub complete-Posted : (here : ℕ) (c c' : Completion) → complete here c ≡ some c' → Posted 1 c c'
unfolding complete
complete-Posted here c c' e = post-Posted here 1 c c' (omega arith) e

pub complete_all-Posted :
    (here : ℕ) (c c' : Completion) → complete_all here c ≡ some c' → Posted all_of_them c c'
unfolding complete_all
complete_all-Posted here c c' e = post-Posted here all_of_them c c' (omega arith) e
