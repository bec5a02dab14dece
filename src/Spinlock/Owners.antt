-- ===== src/Spinlock/Owners.antt =====
-- The places of the threads at the lock of spinlock.c, and who has its byte.
use guestvm_guk.Base.{
  ℕ, ◌≤◌, ◌≡◌, ◌≢◌, refl, sym, ap, ◌∙◌, Bool, true, false, arith, some, ◌==◌, if◌then◌else◌,
  if-true, if-false, Bool-cases, inl, inr, ℕ_discrete,
}
use guestvm_guk.Spinlock.{
  Place, outside, spinning, taken, held, Lock, put, attempt, spin, settle, unlock,
}

-- One step of a thread.
pub data Step (l l' : Lock) : Type 0 where
  attempts : (irqsave : Bool) (t : ℕ) → l.place t ≡ outside → attempt irqsave t l ≡ l' → Step l l'
  spins : (t : ℕ) → l.place t ≡ spinning → spin t l ≡ some l' → Step l l'
  settles :
      (irqsave : Bool) (t : ℕ) → l.place t ≡ taken irqsave → settle irqsave t l ≡ l' → Step l l'
  unlocks : (irqsave : Bool) (t : ℕ) → l.place t ≡ held irqsave → unlock t l ≡ some l' → Step l l'

pub data Steps (l'' : Lock) : Lock → Type 0 where
  done : Steps l'' l''
  step : (l l' : Lock) → Step l l' → Steps l'' l' → Steps l'' l

-- whether a thread there has the lock's byte, and whether it has counted the lock
abbrev pub has_byte : Place → Bool
has_byte outside = false
has_byte spinning = false
has_byte (taken irqsave) = true
has_byte (held irqsave) = true

abbrev pub bytes_of : Place → ℕ
bytes_of p = if has_byte p then 1 else 0

abbrev pub locks_of : Place → ℕ
locks_of outside = 0
locks_of spinning = 0
locks_of (taken irqsave) = 0
locks_of (held irqsave) = 1

-- The byte is 0 or 1; it is 0 when exactly one thread has it, and 1 when none has.
pub record Owned (slock : ℕ) (place : ℕ → Place) : Type 0 where
  pub byte : slock ≤ 1
  pub free : slock ≡ 1 → (t : ℕ) → has_byte (place t) ≡ false
  pub taker : slock ≡ 0 → (t : ℕ) × (has_byte (place t) ≡ true)
  pub once : (t u : ℕ) → has_byte (place t) ≡ true → has_byte (place u) ≡ true → t ≡ u

-- The lock is owned so, a thread has preemption disabled while it has the byte, and its count of locks
-- is 1 while it holds the lock.
pub record IsExclusive (l : Lock) : Type 0 where
  pub owned : Owned l.slock l.place
  pub preempted : (t : ℕ) → l.preempt_count t ≡ bytes_of (l.place t)
  pub counted : (t : ℕ) → l.lock_count t ≡ locks_of (l.place t)

put-own : (f : ℕ → Place) (t : ℕ) (p : Place) → put f t p t ≡ p
put-own f t p = if-true (t == t) _ _ (ground arith)

put-other : (f : ℕ → Place) (t u : ℕ) (p : Place) → u ≢ t → put f t p u ≡ f u
put-other f t u p ne = if-false (u == t) _ _ (ground (arith, ne))

-- Two functions that are changed at the same place stay related.
pub put-put :
    (f : ℕ → ℕ) (place : ℕ → Place) (t v : ℕ) (p : Place) (of : Place → ℕ)
    → ((u : ℕ) → f u ≡ of (place u))
    → v ≡ of p
    → (u : ℕ) → put f t v u ≡ of (put place t p u)
put-put f place t v p of h e u = elim (ℕ_discrete u t) [
  | yes same ↦
      if-true (u == t) _ _ (ground (arith, same))
      ∙ e
      ∙ ap of (sym (if-true (u == t) _ _ (ground (arith, same))))
  | no ne ↦
      if-false (u == t) _ _ (ground (arith, ne)) ∙ h u ∙ ap of (sym (put-other place t u p ne))
]

-- A function that already agrees at a place where the other does not change
pub put-same :
    (f : ℕ → ℕ) (place : ℕ → Place) (t : ℕ) (p : Place) (of : Place → ℕ)
    → ((u : ℕ) → f u ≡ of (place u))
    → of (place t) ≡ of p
    → (u : ℕ) → f u ≡ of (put place t p u)
put-same f place t p of h e u = elim (ℕ_discrete u t) [
  | yes same ↦
      h u
      ∙ ap (λ v. of (place v)) same
      ∙ e
      ∙ ap of (sym (if-true (u == t) _ _ (ground (arith, same))))
  | no ne ↦ h u ∙ ap of (sym (put-other place t u p ne))
]

-- Another place with the byte, or without it, as before
pub Owned-moves :
    (slock t : ℕ) (place : ℕ → Place) (p : Place)
    → Owned slock place
    → has_byte (place t) ≡ has_byte p
    → Owned slock (put place t p)
Owned-moves slock t place p v e = record {
  byte = v.byte;
  free = λ one u. same u ∙ v.free one u;
  taker = λ none_free. let (u, h) = v.taker none_free in (u, same u ∙ h);
  once = λ u w h k. v.once u w (sym (same u) ∙ h) (sym (same w) ∙ k);
}
  where
    same : (u : ℕ) → has_byte (put place t p u) ≡ has_byte (place u)
    same u = elim (ℕ_discrete u t) [
      | yes eq ↦
          ap has_byte (if-true (u == t) _ _ (ground (arith, eq)))
          ∙ sym e
          ∙ ap (λ w. has_byte (place w)) (sym eq)
      | no ne ↦ ap has_byte (put-other place t u p ne)
    ]

pub Owned-takes :
    (t : ℕ) (place : ℕ → Place) (p : Place)
    → Owned 1 place
    → has_byte p ≡ true
    → Owned 0 (put place t p)
Owned-takes t place p v e = record {
  byte = omega arith;
  free = λ one. absurd (omega (arith, one));
  taker = λ none_free. (t, ap has_byte (put-own place t p) ∙ e);
  once = λ u w h k. only u h ∙ sym (only w k);
}
  where
    only : (u : ℕ) → has_byte (put place t p u) ≡ true → u ≡ t
    only u h = elim (ℕ_discrete u t) [
      | yes eq ↦ eq
      | no ne ↦ cc (sym (v.free refl u) ∙ sym (ap has_byte (put-other place t u p ne)) ∙ h)
    ]

pub Owned-leaves :
    (slock t : ℕ) (place : ℕ → Place) (p : Place)
    → Owned slock place
    → has_byte (place t) ≡ true
    → has_byte p ≡ false
    → Owned 1 (put place t p)
Owned-leaves slock t place p v had e = record {
  byte = omega arith;
  free = λ one u. nobody u;
  taker = λ none_free. absurd (omega (arith, none_free));
  once = λ u w h k. cc (sym (nobody u) ∙ h);
}
  where
    nobody : (u : ℕ) → has_byte (put place t p u) ≡ false
    nobody u = elim (ℕ_discrete u t) [
      | yes eq ↦ ap has_byte (if-true (u == t) _ _ (ground (arith, eq))) ∙ e
      | no ne ↦ ap has_byte (put-other place t u p ne) ∙ elim (Bool-cases (has_byte (place u))) [
        | inl has ↦ absurd (ne (v.once u t has had))
        | inr has_not ↦ has_not
      ]
    ]
