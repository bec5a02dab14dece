-- ===== src/Events/Upcall/Tests.antt =====
-- A callback with words of 32 bits, and the second word with words of 64 bits.
use guestvm_guk.Base.{◌≡◌, refl, arith, none, some}
use guestvm_guk.Events.{Events}
use guestvm_guk.Events.Answers.{Handled}
use guestvm_guk.Events.Tests.{silent, silent-Quiet, events}
use guestvm_guk.Events.Upcall.{drain, do_hypervisor_callback}
use guestvm_guk.Events.Upcall.Delivered.{due, do_hypervisor_callback-Handled}
use guestvm_guk.Events.Upcall.Lost.{drain-endless}

do_hypervisor_callback-Handled_test :
    (e' : Events) × (do_hypervisor_callback 32 silent 0 33 2 events ≡ some e')
    × Handled 0 (due events) events e'
do_hypervisor_callback-Handled_test =
    do_hypervisor_callback-Handled silent 0 33 1 events silent-Quiet (omega arith) refl

drain-endless_example : drain 64 silent 0 100 events 1 ≡ none
drain-endless_example =
    drain-endless silent 0 1 0 silent-Quiet (omega arith) (omega arith) (omega arith) 100 events
      refl
