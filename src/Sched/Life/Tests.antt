-- ===== src/Sched/Life/Tests.antt =====
-- Thread 1 exits while thread 3 waits for it.
use guestvm_guk.Base.{◌≡◌, refl, arith, true, some, [], ◌∷◌}
use guestvm_guk.Sched.{Sched, set_thread}
use guestvm_guk.Sched.Queue.{count}
use guestvm_guk.Sched.Tests.{sched, blocked_thread}
use guestvm_guk.Sched.Life.{Threads, exit_thread}
use guestvm_guk.Sched.Life.Joiners.{Exited}
use guestvm_guk.Sched.Life.Exits.{AllLive, exit_thread-returns}

abbrev joined : Sched
joined =
    let s = set_thread sched 1 (record (sched.thread 1) { joiners = 3 ∷ [] }) in
    set_thread s 3 (record blocked_thread { joining = true })

abbrev before : Threads
before = record { sched = joined; zombie_queue = []; freed = [] }

live : AllLive (3 ∷ []) joined
unfolding count
live u h = ground arith

exit_thread-returns_example :
    (ts' : Threads) × (exit_thread 0 before 1 ≡ some ts') × Exited before 1 ts'
unfolding count
exit_thread-returns_example = exit_thread-returns 0 before 1 refl live refl
