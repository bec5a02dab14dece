-- ===== src/Xenbus/Receive/Tests.antt =====
-- A ring with one message of five bytes, and the theorem at it.
use guestvm_guk.Base.{ℕ, ◌%◌, ◌≡◌, refl, arith, true, List, [], ◌∷◌, ◌==◌, if◌then◌else◌}
use guestvm_guk.Xenbus.Ring.{Wire}
use guestvm_guk.Xenbus.Ring.Chunks.{get}
use guestvm_guk.Xenbus.Receive.{Header, Bus, receive, took}
use guestvm_guk.Xenbus.Receive.Messages.{Delivered, receive-Delivered}

abbrev wire : Wire
wire = record {
  size = 1024;
  mask = λ i. i % 1024;
  size_lt = omega arith;
  mask_lt = λ i. omega arith;
  mask_add = λ i k h. ground arith;
}

-- headers of three bytes
abbrev decode : List ℕ → Header
decode (kind ∷ id ∷ len ∷ bytes) = record { kind = kind; req_id = id; len = len }
decode bytes = record { kind = 0; req_id = 0; len = 0 }

abbrev bus : Bus
bus = record {
  rsp_prod = 2049;
  rsp_cons = 2044;
  rsp = λ j. if j == 1021 then 7 else if j == 1022 then 2 else j;
  live = λ _. true;
  reply = λ _. [];
  watches = [];
  woken_threads = [];
  woken_requests = [];
}

receive-Delivered_example :
    (s : Bus) × (receive wire 3 decode 9 bus ≡ took s) × Delivered wire 3 decode 9 bus s
unfolding get
receive-Delivered_example =
    receive-Delivered wire 3 decode 9 bus (omega arith, omega arith, omega arith) (omega arith)
      (λ e. absurd (omega arith)) refl
