-- ===== src/Events/Bind/Tests.antt =====
-- Port 5 is bound, and is unbound with the others.
use guestvm_guk.Events.Tests.{events}
use guestvm_guk.Events.Bind.{unbind_all_ports}
use guestvm_guk.Events.Bind.Ports.{Unbound, unbind_all_ports-Unbound}

unbind_all_ports-Unbound_test : Unbound 0 1024 events (unbind_all_ports 0 1024 events)
unbind_all_ports-Unbound_test = unbind_all_ports-Unbound 0 1024 events
