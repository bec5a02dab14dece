-- ===== src/Xenbus/Ring/Tests.antt =====
-- A ring of 1024 bytes, and the theorems on the requests in it.
use guestvm_guk.Base.{ℕ, ◌-◌, ◌%◌, ◌^◌, ◌≡◌, refl, arith, List, [], ◌∷◌}
use guestvm_guk.Xenbus.Ring.{Wire, Requests, xb_write, bug, has_room}
use guestvm_guk.Xenbus.Ring.Queue.{Queued, message, xb_write-Queued, xb_write-wraps}

abbrev wire : Wire
wire = record {
  size = 1024;
  mask = λ i. i % 1024;
  size_lt = omega arith;
  mask_lt = λ i. omega arith;
  mask_add = λ i k h. ground arith;
}

-- An empty ring, 4 bytes before the end of its round.
abbrev ring : Requests
ring = record { req_prod = 2044; req_cons = 2044; req = λ _. 0 }

abbrev header : List ℕ
header = 1 ∷ 2 ∷ 3 ∷ []

abbrev pieces : List (List ℕ)
pieces = (4 ∷ 5 ∷ []) ∷ [] ∷ (6 ∷ []) ∷ []

xb_write-Queued_example :
    Queued wire (message wire header pieces) ring (xb_write wire header pieces ring ring)
unfolding has_room
xb_write-Queued_example =
    xb_write-Queued wire header pieces ring ring ring (omega arith) refl
      (record { prod_lt = omega arith; cons_lt = omega arith; bounded = omega arith }) refl
      (omega arith)

-- the same ring after nearly 2 ^ 32 bytes
abbrev old_ring : Requests
old_ring = record { req_prod = 2 ^ 32 - 100; req_cons = 2 ^ 32 - 100; req = λ _. 0 }

xb_write-wraps_test : xb_write wire header pieces old_ring old_ring ≡ bug
unfolding has_room
xb_write-wraps_test =
    xb_write-wraps wire header pieces old_ring old_ring
      (record { prod_lt = omega arith; cons_lt = omega arith; bounded = omega arith }) (omega arith)
      refl (omega arith) (omega arith) (omega arith)
