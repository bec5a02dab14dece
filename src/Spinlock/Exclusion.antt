-- ===== src/Spinlock/Exclusion.antt =====
-- At most one thread holds the lock.
use guestvm_guk.Base.{
  ℕ, ◌+◌, ◌^◌, ◌≡◌, refl, sym, ap, ◌∙◌, subst, Bool, not, ◌&&◌, arith, some, ltb, ◌==◌, if-true,
  if-false, Bool-cases, inl, inr, ℕ_discrete,
}
use guestvm_guk.Spinlock.{
  outside, spinning, taken, held, Lock, put, incremented, decremented, spin_lock_max, is_free,
  attempt, spin, settle, unlock,
}
use guestvm_guk.Spinlock.Owners.{
  Step, Steps, has_byte, bytes_of, locks_of, Owned, IsExclusive, put-put, put-same, Owned-moves,
  Owned-takes, Owned-leaves, attempts, spins, settles, unlocks, done, step,
}

attempt-IsExclusive :
    (irqsave : Bool) (t : ℕ) (l : Lock)
    → l.place t ≡ outside
    → IsExclusive l
    → IsExclusive (attempt irqsave t l)
unfolding attempt
attempt-IsExclusive irqsave t l at v = elim (Bool-cases (is_free l.slock)) [
  | inl free ↦
      let one : l.slock ≡ 1 = ground (arith, free, v.owned.byte) in
      subst IsExclusive (sym (if-true _ _ _ free)) (record {
        owned =
            Owned-takes t l.place (taken irqsave) (subst (λ b. Owned b l.place) one v.owned) refl;
        preempted =
            put-put l.preempt_count l.place t _ (taken irqsave) bytes_of v.preempted
              (omega (arith, none_yet));
        counted =
            put-same l.lock_count l.place t (taken irqsave) locks_of v.counted (ap locks_of at);
      })
  | inr closed ↦
      let zero_byte : 0 ≡ l.slock = ground (arith, closed, v.owned.byte) in
      subst IsExclusive (sym (if-false _ _ _ closed)) (record {
        owned =
            subst (λ b. Owned b (put l.place t spinning)) (sym zero_byte)
              (Owned-moves l.slock t l.place spinning v.owned (ap has_byte at));
        preempted = λ u.
            back u
            ∙ put-same l.preempt_count l.place t spinning bytes_of v.preempted (ap bytes_of at) u;
        counted = put-same l.lock_count l.place t spinning locks_of v.counted (ap locks_of at);
      })
]
  where
    none_yet : l.preempt_count t ≡ 0
    none_yet = v.preempted t ∙ ap bytes_of at

    back : (u : ℕ) → decremented (incremented l.preempt_count t) t u ≡ l.preempt_count u
    back u = elim (ℕ_discrete u t) [
      | yes eq ↦ ground (arith, eq, none_yet, ap l.preempt_count eq)
      | no ne ↦ ground (arith, ne)
    ]

settle-IsExclusive :
    (irqsave : Bool) (t : ℕ) (l : Lock)
    → l.place t ≡ taken irqsave
    → IsExclusive l
    → IsExclusive (settle irqsave t l)
unfolding settle
settle-IsExclusive irqsave t l at v = record {
  owned = Owned-moves l.slock t l.place (held irqsave) v.owned (ap has_byte at);
  preempted =
      put-same l.preempt_count l.place t (held irqsave) bytes_of v.preempted (ap bytes_of at);
  counted =
      put-put l.lock_count l.place t _ (held irqsave) locks_of v.counted
        (omega (arith, v.counted t ∙ ap locks_of at));
}

spin-IsExclusive :
    (t : ℕ) (l l' : Lock)
    → l.place t ≡ spinning
    → spin t l ≡ some l'
    → IsExclusive l
    → IsExclusive l'
unfolding spin
spin-IsExclusive t l l' at e v =
    elim (Bool-cases (not (is_free l.slock) && not (l.break_lock == 0))) [
      | inl waits ↦ elim (Bool-cases (ltb spin_lock_max (l.spin_count + 1))) [
        | inl stuck ↦ cc (sym (if-true _ _ _ stuck) ∙ sym (if-true _ _ _ waits) ∙ e)
        | inr again ↦
            let same : record l { spin_count = l.spin_count + 1 } ≡ l' =
              cc (sym (if-false _ _ _ again) ∙ sym (if-true _ _ _ waits) ∙ e) in
            subst IsExclusive same
              (record { owned = v.owned; preempted = v.preempted; counted = v.counted })
      ]
      | inr leaves ↦
          let same : record l { place = put l.place t outside } ≡ l' =
            cc (sym (if-false _ _ _ leaves) ∙ e) in
          subst IsExclusive same (record {
            owned = Owned-moves l.slock t l.place outside v.owned (ap has_byte at);
            preempted =
                put-same l.preempt_count l.place t outside bytes_of v.preempted (ap bytes_of at);
            counted = put-same l.lock_count l.place t outside locks_of v.counted (ap locks_of at);
          })
    ]

-- A thread that holds the lock can always give it back.
pub unlock-frees :
    (irqsave : Bool) (t : ℕ) (l : Lock)
    → l.place t ≡ held irqsave
    → IsExclusive l
    → (l' : Lock) × (unlock t l ≡ some l') × IsExclusive l' × (l'.slock ≡ 1)
unfolding unlock
unlock-frees irqsave t l at v = (
  _,
  if-true (ltb (decremented l.lock_count t t) (2 ^ 31)) _ _ (ground (arith, none_left)),
  record {
    owned = Owned-leaves l.slock t l.place outside v.owned (ap has_byte at) refl;
    preempted =
        put-put l.preempt_count l.place t _ outside bytes_of v.preempted
          (omega (arith, v.preempted t ∙ ap bytes_of at));
    counted =
        put-put l.lock_count l.place t _ outside locks_of v.counted
          (omega (arith, v.counted t ∙ ap locks_of at));
  },
  refl,
)
  where
    none_left : decremented l.lock_count t t ≡ 0
    none_left = if-true (t == t) _ _ (ground arith) ∙ omega (arith, v.counted t ∙ ap locks_of at)

Step-IsExclusive : (l l' : Lock) → Step l l' → IsExclusive l → IsExclusive l'
Step-IsExclusive l l' (attempts irqsave t at e) v =
    subst IsExclusive e (attempt-IsExclusive irqsave t l at v)
Step-IsExclusive l l' (spins t at e) v = spin-IsExclusive t l l' at e v
Step-IsExclusive l l' (settles irqsave t at e) v =
    subst IsExclusive e (settle-IsExclusive irqsave t l at v)
Step-IsExclusive l l' (unlocks irqsave t at e) v =
    let (l1, f, w, one) = unlock-frees irqsave t l at v in
    let same : l1 ≡ l' = cc (sym f ∙ e) in subst IsExclusive same w

Steps-keeps : (l'' l : Lock) → Steps l'' l → IsExclusive l → IsExclusive l''
Steps-keeps l'' l done v = v
Steps-keeps l'' l (step _ l' one more) v = Steps-keeps l'' l' more (Step-IsExclusive l l' one v)

-- From a free lock and threads that are idle with counts 0, in every order of the steps of threads
-- that try, wait, take and release the lock with either variant, it stays so that at most one
-- thread has the lock, the lock's byte being 0 exactly then, and that each thread's preemption
-- count and count of locks are 1 while it has the byte and while it holds the lock, and 0
-- otherwise.
pub Steps-IsExclusive :
    (l'' l : Lock)
    → Steps l'' l
    → l.slock ≡ 1
    → ((t : ℕ) → (l.place t ≡ outside) × (l.lock_count t ≡ 0) × (l.preempt_count t ≡ 0))
    → IsExclusive l''
Steps-IsExclusive l'' l steps one idle = Steps-keeps l'' l steps (record {
  owned = record {
    byte = omega (arith, one);
    free = λ e t. ap has_byte (idle t).0;
    taker = λ e. absurd (omega (arith, e, one));
    once = λ t u h k. cc (sym (ap has_byte (idle t).0) ∙ h);
  };
  preempted = λ t. (idle t).2 ∙ ap bytes_of (sym (idle t).0);
  counted = λ t. (idle t).1 ∙ ap locks_of (sym (idle t).0);
})
