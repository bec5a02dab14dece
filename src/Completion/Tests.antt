-- ===== src/Completion/Tests.antt =====
-- Thread 1 waits for a completion, which is then posted.
use guestvm_guk.Base.{◌+◌, ◌≤◌, refl, arith, [], ◌∷◌}
use guestvm_guk.Sched.{block, wake, db_wake, unlink}
use guestvm_guk.Sched.Tests.{sched}
use guestvm_guk.Sched.Synced.{registers_lost}
use guestvm_guk.Completion.{
  Completion, linked, add_wait_queue, wake_up, wait_begins, wait_resumes, complete,
}
use guestvm_guk.Completion.Waits.{Posted, complete-Posted}
use guestvm_guk.Completion.Runs.{
  Steps, done, step, begins_sleep, resumes_return, completes, NoneLost, Steps-NoneLost, all_gone_on,
  all_permits, all_gone_on-permits,
}

abbrev fresh : Completion
fresh = record { done = 0; waiters = []; sched = sched }

abbrev waiting : Completion
waiting = record { done = 0; waiters = 1 ∷ []; sched = block 0 sched 1 }

abbrev posted : Completion
posted = record {
  done = 1;
  waiters = 1 ∷ [];
  sched = db_wake 0 (registers_lost (block 0 sched 1) 1) 1;
}

abbrev ended : Completion
ended = record posted { done = 0; waiters = [] }

complete-Posted_test : Posted 1 waiting posted
unfolding complete wake_up block wake
complete-Posted_test = complete-Posted 0 waiting posted refl

abbrev run : Steps ended fresh
unfolding wait_begins wait_resumes complete wake_up add_wait_queue linked block wake db_wake unlink
run =
    step fresh waiting (begins_sleep 0 1 refl)
      (step waiting posted (completes 0 refl) (step posted ended (resumes_return 0 1 refl) done))

Steps-NoneLost_example : NoneLost posted
unfolding wait_begins complete wake_up add_wait_queue linked block wake db_wake
Steps-NoneLost_example =
    Steps-NoneLost posted fresh
      (step fresh waiting (begins_sleep 0 1 refl) (step waiting posted (completes 0 refl) done))
      (λ pos. absurd (omega arith))

all_gone_on-permits_example : all_gone_on ended fresh run + 0 ≤ 0 + all_permits ended fresh run
all_gone_on-permits_example = all_gone_on-permits ended fresh run
