-- ===== src/Sched/Wakes.antt =====
-- What a wake leaves of the threads.
use guestvm_guk.Base.{ℕ, ◌≡◌, ◌∙◌, subst, Bool, true, ◌||◌, arith, some, inl, inr}
use guestvm_guk.Sched.{Sched, wake, db_wake}
use guestvm_guk.Sched.Synced.{wake-cases, registers_lost}

-- The thread has been woken, or the debugger holds it and is to wake it.
abbrev pub awake : Sched → ℕ → Bool
awake s t = (s.thread t).runnable || (s.thread t).debug_suspend

-- what a wake leaves
abbrev pub Stays : Sched → Sched → Type 0
Stays s s' =
    (u : ℕ)
    → ((s'.thread u).joiners ≡ (s.thread u).joiners)
      × ((s'.thread u).joining ≡ (s.thread u).joining)
      × ((s'.thread u).dying ≡ (s.thread u).dying)
      × (awake s u ≡ true → awake s' u ≡ true)

pub db_wake-Stays :
    (here : ℕ) (s : Sched) (t : ℕ)
    → Stays s (db_wake here s t) × (awake (db_wake here s t) t ≡ true)
unfolding db_wake
db_wake-Stays here s t =
    ((λ u. (ground arith, ground arith, ground arith, λ h. ground arith)), ground arith)

pub wake-Stays : (here : ℕ) (s s' : Sched) (t : ℕ) → wake here s t ≡ some s' → Stays s s'
wake-Stays here s s' t e = elim (wake-cases here s s' t e) [
  | inl p ↦ subst (Stays s) p.0 (λ u. (ground arith, ground arith, ground arith, λ h. ground arith))
  | inr (inl p) ↦
      subst (Stays s) p (λ u. (ground arith, ground arith, ground arith, λ h. ground arith))
  | inr (inr p) ↦ subst (Stays s) p (through (db_wake-Stays here (registers_lost s t) t).0)
]
  where
    through :
        Stays (registers_lost s t) (db_wake here (registers_lost s t) t)
        → Stays s (db_wake here (registers_lost s t) t)
    through f u =
        let (a, b, c, d) = f u in
        (a ∙ ground arith, b ∙ ground arith, c ∙ ground arith, λ h. d (ground arith))

pub wake-awake : (here : ℕ) (s s' : Sched) (t : ℕ) → wake here s t ≡ some s' → awake s' t ≡ true
wake-awake here s s' t e = elim (wake-cases here s s' t e) [
  | inl (p, before) ↦ subst (λ x. awake x t ≡ true) p (ground (arith, before))
  | inr (inl p) ↦ subst (λ x. awake x t ≡ true) p (ground arith)
  | inr (inr p) ↦ subst (λ x. awake x t ≡ true) p (db_wake-Stays here (registers_lost s t) t).1
]
