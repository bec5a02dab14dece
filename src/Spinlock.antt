-- ===== src/Spinlock.antt =====
-- Spinlocks, spinlock.c with include/x86/arch_spinlock.h: one lock that threads take and release at the
-- same time. What touches the lock's byte is one step; the other fields are written in steps after it.
pub mod Owners
pub mod Exclusion
mod Tests
use guestvm_guk.Base.{
  ℕ, ◌+◌, ◌-◌, ◌%◌, ◌^◌, Bool, true, false, not, ◌&&◌, Option, none, some, ltb, ◌==◌, if◌then◌else◌,
}

-- where a thread is: not in the code or about to try, in the loop that waits, with the lock's byte taken, or
-- holding the lock; `true` is the variant with interrupts saved and off
pub data Place : Type 0 where
  outside : Place
  spinning : Place
  taken : Bool → Place
  held : Bool → Place

-- `struct spinlock`, with the counts of `struct thread` and of preemption, in 32 bits, by thread
pub record Lock : Type 0 where
  pub slock : ℕ
  pub break_lock : ℕ
  pub spin_count : ℕ
  pub owner : ℕ
  pub lock_count : ℕ → ℕ
  pub preempt_count : ℕ → ℕ
  pub place : ℕ → Place

abbrev pub put {ℓ} : {A : Type ℓ} → (ℕ → A) → ℕ → A → ℕ → A
put f t v u = if u == t then v else f u

-- one more and one less, in 32 bits
abbrev pub incremented : (ℕ → ℕ) → ℕ → ℕ → ℕ
incremented f t = put f t ((f t + 1) % 2 ^ 32)

abbrev pub decremented : (ℕ → ℕ) → ℕ → ℕ → ℕ
decremented f t = put f t ((f t + 2 ^ 32 - 1) % 2 ^ 32)

-- `SPIN_LOCK_MAX`
abbrev pub spin_lock_max : ℕ
spin_lock_max = 100000000

-- `spin_can_lock`, and `oldval > 0`: a positive signed byte
abbrev pub is_free : ℕ → Bool
is_free byte = ltb 0 byte && ltb byte 128

-- One round of `guk_spin_lock`, or of `guk_spin_lock_irqsave`, up to the loop that waits:
-- `_raw_spin_trylock` exchanges the byte for 0. What a round does behind the exchange, with its thread's
-- counts and `break_lock`, is in the same step.
unfoldable pub attempt : Bool → ℕ → Lock → Lock
attempt irqsave t l =
    let tried = record l { slock = 0 } in
    if is_free l.slock
    then record tried {
      preempt_count = incremented l.preempt_count t;
      place = put l.place t (taken irqsave);
    }
    else record tried {
      preempt_count = decremented (incremented l.preempt_count t) t;
      break_lock = if l.break_lock == 0 then 1 else l.break_lock;
      place = put l.place t spinning;
    }

-- One round of the loop that waits; `none` is the stuck lock that stops the system.
unfoldable pub spin : ℕ → Lock → Option Lock
spin t l =
    if not (is_free l.slock) && not (l.break_lock == 0)
    then (if ltb spin_lock_max (l.spin_count + 1)
        then none
        else some (record l { spin_count = l.spin_count + 1 }))
    else some (record l { place = put l.place t outside })

-- what follows when the byte has been taken
unfoldable pub settle : Bool → ℕ → Lock → Lock
settle irqsave t l = record l {
  break_lock = 0;
  spin_count = 0;
  owner = if irqsave then t else l.owner;
  lock_count = incremented l.lock_count t;
  place = put l.place t (held irqsave);
}

-- `guk_spin_unlock` and `guk_spin_unlock_irqrestore`; `none` is the `BUG` for a negative count.
unfoldable pub unlock : ℕ → Lock → Option Lock
unlock t l =
    let left = decremented l.lock_count t in
    if ltb (left t) (2 ^ 31)
    then some (record l {
      slock = 1;
      lock_count = left;
      preempt_count = decremented l.preempt_count t;
      place = put l.place t outside;
    })
    else none
