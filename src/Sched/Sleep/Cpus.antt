-- ===== src/Sched/Sleep/Cpus.antt =====
-- A wake leaves every thread on its CPU.
use guestvm_guk.Base.{
  ℕ, ◌≡◌, refl, sym, ◌∙◌, subst, true, arith, Option, none, some, List, [], ◌∷◌, leb, if-true,
  if-false, Bool-cases, inl, inr,
}
use guestvm_guk.Sched.{Sched, wake, db_wake}
use guestvm_guk.Sched.Sleep.{Sleeper, cons_entry, wake_expired}
use guestvm_guk.Sched.Synced.{wake-cases, registers_lost}

-- every thread on the CPU that it has been on
abbrev pub SameCpus : Sched → Sched → Type 0
SameCpus s s' = (u : ℕ) → (s'.thread u).cpu ≡ (s.thread u).cpu

db_wake-SameCpus : (here : ℕ) (s : Sched) (t : ℕ) → SameCpus s (db_wake here (registers_lost s t) t)
unfolding db_wake
db_wake-SameCpus here s t u = ground arith

wake-SameCpus : (here : ℕ) (s s' : Sched) (t : ℕ) → wake here s t ≡ some s' → SameCpus s s'
wake-SameCpus here s s' t e = elim (wake-cases here s s' t e) [
  | inl p ↦ subst (SameCpus s) p.0 (λ u. ground arith)
  | inr (inl p) ↦ subst (SameCpus s) p (λ u. ground arith)
  | inr (inr p) ↦ subst (SameCpus s) p (db_wake-SameCpus here s t)
]

-- the result of a walk over the sleep queue, if there is one
abbrev pub CpusKept : Sched → Option (Sched × List Sleeper) → Type 0
CpusKept s none = Unit
CpusKept s (some (s', q)) = SameCpus s s'

CpusKept-cons_entry :
    (s s1 : Sched) (sq : Sleeper) (r : Option (Sched × List Sleeper))
    → SameCpus s s1
    → CpusKept s1 r
    → CpusKept s (cons_entry sq r)
CpusKept-cons_entry s s1 sq none k v = tt
CpusKept-cons_entry s s1 sq (some (s', q)) k v = λ u. v u ∙ k u

-- One wake, and what comes after it.
woken :
    (here now : ℕ) (s : Sched) (sq : Sleeper) (q : List Sleeper)
    → ((s1 : Sched) → CpusKept s1 (wake_expired here now s1 q))
    → (r : Option Sched) → wake here s sq.thread ≡ r
    → CpusKept s (elim r [
      | none ↦ none
      | some s1 ↦ cons_entry (record sq { expired = true }) (wake_expired here now s1 q)
    ])
woken here now s sq q rest none e = tt
woken here now s sq q rest (some s1) e =
    CpusKept-cons_entry s s1 (record sq { expired = true }) _ (wake-SameCpus here s s1 sq.thread e)
      (rest s1)

pub wake_expired-CpusKept :
    (here now : ℕ) (q : List Sleeper) (s : Sched) → CpusKept s (wake_expired here now s q)
unfolding wake_expired
wake_expired-CpusKept here now [] s = λ u. refl
wake_expired-CpusKept here now (sq ∷ q) s = elim (Bool-cases sq.expired) [
  | inl gone ↦
      subst (CpusKept s) (sym (if-true _ _ _ gone))
        (CpusKept-cons_entry s s sq _ (λ u. refl) (wake_expired-CpusKept here now q s))
  | inr live ↦ elim (Bool-cases (leb sq.wakeup_time now)) [
    | inl due ↦
        subst (CpusKept s) (sym (if-false _ _ _ live ∙ if-true _ _ _ due))
          (woken here now s sq q (wake_expired-CpusKept here now q) (wake here s sq.thread) refl)
    | inr later ↦ subst (CpusKept s) (sym (if-false _ _ _ live ∙ if-false _ _ _ later)) (λ u. refl)
  ]
]
