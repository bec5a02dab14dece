-- ===== src/Spinlock/Tests.antt =====
-- Two threads at one lock: the first takes it, the second waits.
use guestvm_guk.Base.{◌≡◌, refl, true, false, some}
use guestvm_guk.Spinlock.{outside, Lock, attempt, settle, unlock}
use guestvm_guk.Spinlock.Exclusion.{Steps-IsExclusive, unlock-frees}
use guestvm_guk.Spinlock.Owners.{Steps, done, step, attempts, settles, IsExclusive}

abbrev fresh : Lock
fresh = record {
  slock = 1;
  break_lock = 0;
  spin_count = 0;
  owner = 0;
  lock_count = λ t. 0;
  preempt_count = λ t. 0;
  place = λ t. outside;
}

abbrev second_waits : Lock
second_waits = attempt true 2 (attempt false 1 fresh)

abbrev first_holds : Lock
first_holds = settle false 1 second_waits

run : Steps first_holds fresh
unfolding attempt settle
run = step fresh (attempt false 1 fresh) (attempts false 1 refl refl) (
    step (attempt false 1 fresh) second_waits (attempts true 2 refl refl)
      (step second_waits first_holds (settles false 1 refl refl) done))

Steps-IsExclusive_example : IsExclusive first_holds
Steps-IsExclusive_example = Steps-IsExclusive first_holds fresh run refl (λ t. (refl, refl, refl))

unlock-frees_test : (l' : Lock) × (unlock 1 first_holds ≡ some l') × IsExclusive l' × (l'.slock ≡ 1)
unfolding attempt settle
unlock-frees_test =
    unlock-frees false 1 first_holds refl
      (Steps-IsExclusive first_holds fresh run refl (λ t. (refl, refl, refl)))
