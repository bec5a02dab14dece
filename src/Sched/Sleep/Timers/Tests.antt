-- ===== src/Sched/Sleep/Timers/Tests.antt =====
-- A timer of 1 millisecond that is set while a thread sleeps for longer.
use guestvm_guk.Base.{◌≡◌, refl, true, [], ◌∷◌, arith, map, leb}
use guestvm_guk.Sched.{wake, db_wake}
use guestvm_guk.Sched.Synced.{registers_lost}
use guestvm_guk.Sched.Tests.{sched}
use guestvm_guk.Sched.Sleep.{Sleeper, add_by_time, sleep_queue_add, wake_expired}
use guestvm_guk.Sched.Sleep.Laws.{mark}
use guestvm_guk.Sched.Sleep.Timers.{new_entry, add_timer, remove_timer}
use guestvm_guk.Sched.Sleep.Timers.Fires.{remove_timer-fires}

abbrev asleep : Sleeper
asleep = record (new_entry 8 3 9000000) { active = true }

abbrev fired : Sleeper
fired = record (new_entry 7 5 2000000) { active = true; expired = true }

remove_timer-fires_example :
    remove_timer 7 (fired ∷ asleep ∷ []) ≡ (leb 2000000 3000000, map (mark 3000000) (asleep ∷ []))
unfolding add_timer sleep_queue_add add_by_time wake_expired wake
remove_timer-fires_example =
    remove_timer-fires 0 1000000 3000000 5 7 1 sched (db_wake 0 (registers_lost sched 5) 5)
      (asleep ∷ []) (fired ∷ asleep ∷ []) (omega arith, tt) (refl, tt) (omega arith) refl
