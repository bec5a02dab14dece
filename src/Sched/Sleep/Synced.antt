-- ===== src/Sched/Sleep/Synced.antt =====
-- The walk over the sleep queue, and the agreement of the ready queue with the flags.
use guestvm_guk.Base.{
  ℕ, ◌≡◌, refl, subst, true, Option, none, some, List, [], ◌∷◌, sym, ◌∙◌, leb, if-true, if-false,
  Bool-cases, inl, inr,
}
use guestvm_guk.Sched.{Sched, wake}
use guestvm_guk.Sched.Sleep.{Sleeper, cons_entry, wake_expired}
use guestvm_guk.Sched.Synced.{IsSynced, wake-IsSynced}

-- A result of `wake_expired` that is in agreement, if it returns
abbrev pub Agrees : Option (Sched × List Sleeper) → Type 0
Agrees none = Unit
Agrees (some (s, q)) = IsSynced s

Agrees-cons_entry :
    (sq : Sleeper) (r : Option (Sched × List Sleeper)) → Agrees r → Agrees (cons_entry sq r)
Agrees-cons_entry sq none v = v
Agrees-cons_entry sq (some (s, q)) v = v

-- One wake, and what comes after it.
Agrees-woken :
    (here : ℕ) (s : Sched) (sq : Sleeper) (after : Sched → Option (Sched × List Sleeper))
    → IsSynced s
    → ((s1 : Sched) → IsSynced s1 → Agrees (after s1))
    → (r : Option Sched) → wake here s sq.thread ≡ r
    → Agrees (elim r [ none ↦ none | some s1 ↦ cons_entry sq (after s1) ])
Agrees-woken here s sq after v rest none e = tt
Agrees-woken here s sq after v rest (some s1) e =
    Agrees-cons_entry sq _ (rest s1 (wake-IsSynced here s s1 sq.thread v e))

pub wake_expired-Agrees :
    (here now : ℕ) (q : List Sleeper) (s : Sched) → IsSynced s → Agrees (wake_expired here now s q)
unfolding wake_expired
wake_expired-Agrees here now [] s v = v
wake_expired-Agrees here now (sq ∷ q) s v = elim (Bool-cases sq.expired) [
  | inl gone ↦
      subst Agrees (sym (if-true _ _ _ gone))
        (Agrees-cons_entry sq _ (wake_expired-Agrees here now q s v))
  | inr live ↦ elim (Bool-cases (leb sq.wakeup_time now)) [
    | inl due ↦ subst Agrees (sym (if-false _ _ _ live ∙ if-true _ _ _ due)) (
        Agrees-woken here s (record sq { expired = true }) (λ s1. wake_expired here now s1 q) v
          (λ s1 v1. wake_expired-Agrees here now q s1 v1) (wake here s sq.thread) refl)
    | inr later ↦ subst Agrees (sym (if-false _ _ _ live ∙ if-false _ _ _ later)) v
  ]
]
