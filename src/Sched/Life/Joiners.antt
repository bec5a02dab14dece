-- ===== src/Sched/Life/Joiners.antt =====
-- Who waits for a thread, when it ends.
use guestvm_guk.Base.{
  ℕ, ◌<◌, ◌≡◌, refl, sym, ap, ◌∙◌, subst, true, false, not, arith, some, List, [], ◌∷◌, ◌++◌, ◌==◌,
  if◌then◌else◌, if-true, if-false, Bool-cases, Option-cases, inl, inr, ℕ_discrete,
}
use guestvm_guk.Sched.{Sched, unlink, block, wake}
use guestvm_guk.Sched.Queue.{count}
use guestvm_guk.Sched.Wakes.{awake, wake-Stays, wake-awake}
use guestvm_guk.Sched.Life.{
  set_joining, set_dying, Threads, unjoin, wake_joiners, with_sched, exit_thread,
}

-- `wake_joiners` from a state in which `ts` are the joiners, to one in which they have been woken
pub record Woken (joinee : ℕ) (ts : List ℕ) (s s' : Sched) : Type 0 where
  pub nobody : (s'.thread joinee).joiners ≡ []
  pub all : (u : ℕ) → 0 < count u ts → (awake s' u ≡ true) × ((s'.thread u).joining ≡ false)
  pub kept : (u : ℕ) → awake s u ≡ true → awake s' u ≡ true
  pub left : (u : ℕ) → (s.thread u).joining ≡ false → (s'.thread u).joining ≡ false
  pub dying : (u : ℕ) → (s'.thread u).dying ≡ (s.thread u).dying

unjoin-joiners :
    (s : Sched) (joinee t : ℕ) (ts : List ℕ)
    → (s.thread joinee).joiners ≡ t ∷ ts
    → ((unjoin s joinee t).thread joinee).joiners ≡ ts
unfolding unlink
unjoin-joiners s joinee t ts e =
    at_joinee ∙ ap (unlink t) (kept ∙ e) ∙ if-true (t == t) ts (t ∷ unlink t ts) (ground arith)
  where
    at_joinee :
        ((unjoin s joinee t).thread joinee).joiners
        ≡ unlink t ((set_joining s t false).thread joinee).joiners
    at_joinee = ground arith

    kept : ((set_joining s t false).thread joinee).joiners ≡ (s.thread joinee).joiners
    kept = ground arith

unjoin-joining :
    (s : Sched) (joinee t u : ℕ)
    → ((unjoin s joinee t).thread u).joining ≡ (if u == t then false else (s.thread u).joining)
unjoin-joining s joinee t u = ground arith

unjoin-awake : (s : Sched) (joinee t u : ℕ) → awake (unjoin s joinee t) u ≡ awake s u
unjoin-awake s joinee t u = ground arith

pub unjoin-dying :
    (s : Sched) (joinee t u : ℕ) → ((unjoin s joinee t).thread u).dying ≡ (s.thread u).dying
unjoin-dying s joinee t u = ground arith

wake_joiners-Woken :
    (here joinee : ℕ) (ts : List ℕ) (s s' : Sched)
    → (s.thread joinee).joiners ≡ ts
    → wake_joiners here joinee ts s ≡ some s'
    → Woken joinee ts s s'
unfolding wake_joiners count
wake_joiners-Woken here joinee [] s s' js e =
    let same : s ≡ s' = cc e in
    subst (Woken joinee [] s) same (record {
      nobody = js;
      all = λ u h. absurd (omega arith);
      kept = λ u h. h;
      left = λ u h. h;
      dying = λ u. refl;
    })
wake_joiners-Woken here joinee (t ∷ ts) s s' js e =
    elim (Option-cases (wake here (unjoin s joinee t) t)) [
      | inl gone ↦ cc (rw (gone, wake_joiners) at e)
      | inr (s1, f) ↦
          let stays = wake-Stays here (unjoin s joinee t) s1 t f in
          let w =
            wake_joiners-Woken here joinee ts s1 s'
              ((stays joinee).0 ∙ unjoin-joiners s joinee t ts js) (rw (f, wake_joiners) at e) in
          let woken : (awake s' t ≡ true) × ((s'.thread t).joining ≡ false) = (
            w.kept t (wake-awake here (unjoin s joinee t) s1 t f),
            w.left t
                ((stays t).1 ∙ unjoin-joining s joinee t t ∙ if-true (t == t) _ _ (ground arith)),
          ) in
          record {
            nobody = w.nobody;
            all = λ u h. elim (ℕ_discrete u t) [
              | yes same ↦
                  subst (λ k. (awake s' k ≡ true) × ((s'.thread k).joining ≡ false)) (sym same)
                    woken
              | no ne ↦ w.all u (ground arith)
            ];
            kept = λ u h. w.kept u ((stays u).3 (unjoin-awake s joinee t u ∙ h));
            left = λ u h. w.left u ((stays u).1 ∙ ground (arith, unjoin-joining s joinee t u, h));
            dying = λ u. w.dying u ∙ (stays u).2 ∙ unjoin-dying s joinee t u;
          }
    ]

-- what `exit_thread` leaves behind
pub record Exited (ts : Threads) (t : ℕ) (ts' : Threads) : Type 0 where
  pub zombie : ts'.zombie_queue ≡ ts.zombie_queue ++ (t ∷ [])
  pub dying : (ts'.sched.thread t).dying ≡ true
  pub nobody : (ts'.sched.thread t).joiners ≡ []
  pub woken :
      (u : ℕ)
      → 0 < count u (ts.sched.thread t).joiners
      → (awake ts'.sched u ≡ true) × ((ts'.sched.thread u).joining ≡ false)

pub exit-joiners :
    (here : ℕ) (s : Sched) (t : ℕ)
    → ((set_dying (block here s t) t).thread t).joiners ≡ (s.thread t).joiners
unfolding block
exit-joiners here s t = ground arith

-- Where `exit_thread` comes to its call of the scheduler, the thread is a dying zombie without joiners, and
-- those that it had are awake.
pub exit_thread-Exited :
    (here : ℕ) (ts ts' : Threads) (t : ℕ) → exit_thread here ts t ≡ some ts' → Exited ts t ts'
unfolding exit_thread
exit_thread-Exited here ts ts' t e = elim (Bool-cases (not (ts.sched.thread t).running)) [
  | inl stopped ↦ cc (sym (if-true _ _ _ stopped) ∙ e)
  | inr runs ↦ elim (Option-cases (wake_joiners here t (s2.thread t).joiners s2)) [
    | inl gone ↦ cc (sym (if-false _ _ _ runs ∙ ap (with_sched zombies) gone) ∙ e)
    | inr (s', f) ↦
        let same : record zombies { sched = s' } ≡ ts' =
          cc (sym (if-false _ _ _ runs ∙ ap (with_sched zombies) f) ∙ e) in
        let w = wake_joiners-Woken here t (s2.thread t).joiners s2 s' refl f in
        subst (Exited ts t) same (record {
          zombie = refl;
          dying = w.dying t ∙ ground arith;
          nobody = w.nobody;
          woken =
              λ u h. w.all u (subst (λ l. 0 < count u l) (sym (exit-joiners here ts.sched t)) h);
        })
  ]
]
  where
    s2 : Sched
    s2 = set_dying (block here ts.sched t) t

    zombies : Threads
    zombies = record ts { zombie_queue = ts.zombie_queue ++ (t ∷ []) }
