-- ===== src/Events/Tests.antt =====
-- Port 5 has an event, and the second word has one.
use guestvm_guk.Base.{ℕ, ◌==◌, ◌||◌, refl, arith, true, false, none, some, []}
use guestvm_guk.Events.{Events, do_event}
use guestvm_guk.Events.Handled.{do_event-Handled}
use guestvm_guk.Events.Answers.{Quiet, Handled}

-- a handler that changes nothing
abbrev pub silent : ℕ → ℕ → ℕ → Events → Events
silent h p a e = e

pub silent-Quiet : Quiet silent
silent-Quiet = record {
  pending = λ h p a e. refl;
  mask = λ h p a e. refl;
  sel = λ h p a e. refl;
  nested = λ h p a e. refl;
  acts = λ h p a e. refl;
  log = λ h p a e. refl;
}

abbrev pub events : Events
events = record {
  evtchn_pending = λ q. (q == 5) || (q == 64);
  evtchn_mask = λ q. false;
  pending_sel = λ q. (q == 0) || (q == 1);
  upcall_pending = true;
  upcall_mask = false;
  upcall_count = 0;
  actions = λ q. record { cpu = none; handler = some 7; argument = q; count = 0 };
  bound_ports = λ q. q == 5;
  closed = [];
  calls = [];
  forced = 0;
}

do_event-Handled_test : Handled 0 (λ q. 5 == q) events (do_event silent 0 events 5)
do_event-Handled_test = do_event-Handled silent 0 events 5 silent-Quiet (omega arith) refl
