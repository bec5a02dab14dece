-- ===== src/Console/Tests.antt =====
-- A console with rings of 16 bytes, and a daemon that takes all that is in the ring of output.
use guestvm_guk.Base.{
  ℕ, ◌+◌, ◌-◌, ◌%◌, ◌^◌, ◌<◌, ◌≤◌, ◌≡◌, ◌↔◌, refl, arith, true, false, min, some, List, [], ◌∷◌,
  ◌++◌, append-nil, length, sym,
}
use guestvm_guk.Xenbus.Ring.{Wire}
use guestvm_guk.Xenbus.Ring.Chunks.{get}
use guestvm_guk.Console.{
  Interface, Console, printed, console_print, xencons_ring_recv, xencons_ring_avail, overflows,
  overflow_length, stops,
}
use guestvm_guk.Console.Output.{Drains, pending, passed}
use guestvm_guk.Console.Lines.{console_print-crlf}
use guestvm_guk.Console.Crlf.{crlf}
use guestvm_guk.Console.Input.{IsInput, waiting_input, xencons_ring_recv-queue, overflows_iff}

abbrev wire : Wire
wire = record {
  size = 16;
  mask = λ i. i % 16;
  size_lt = omega arith;
  mask_lt = λ i. omega arith;
  mask_add = λ i k h. ground arith;
}

abbrev drain : Interface → Interface
drain s = record s { out_cons = s.out_prod; taken_out = s.taken_out ++ pending wire s }

drain-Drains : Drains wire drain
unfolding get
drain-Drains s v =
    let empty : (s.out_prod + 2 ^ 32 - s.out_prod) % 2 ^ 32 ≡ 0 = omega (arith, v.prod_lt) in
    (
      record { prod_lt = v.prod_lt; cons_lt = v.prod_lt; bounded = omega (arith, empty) },
      omega (arith, empty),
      pending wire s,
      rw empty (sym (append-nil (pending wire s))),
      refl,
    )

abbrev start : Console
start = record {
  console_initialised = false;
  console_dying = false;
  rings = record {
    in_cons = 6;
    in_prod = 9;
    in_ring = λ i. 40 + i;
    out_cons = 14;
    out_prod = 15;
    out_ring = λ i. 60;
    notified = 0;
    taken_out = [];
  };
}

abbrev two_lines : List ℕ
two_lines = 97 ∷ 10 ∷ 98 ∷ 10 ∷ []

console_print-crlf_example :
    (s' : Interface) × (console_print wire wire drain two_lines start ≡ some (printed s'))
    × (passed wire s' ≡ passed wire start.rings ++ crlf two_lines)
unfolding stops xencons_ring_avail overflows
console_print-crlf_example =
    console_print-crlf wire wire drain 97 (10 ∷ 98 ∷ 10 ∷ []) start drain-Drains
      (record { prod_lt = omega arith; cons_lt = omega arith; bounded = omega arith }) refl refl

xencons_ring_recv-queue_example :
    (bytes : List ℕ) × (s' : Interface) × (xencons_ring_recv wire 2 start.rings ≡ some (bytes, s'))
    × (length bytes ≡ min 2 (length (waiting_input wire start.rings)))
    × (waiting_input wire start.rings ≡ bytes ++ waiting_input wire s')
    × IsInput wire s'
    × (s'.notified ≡ 0 + 1)
xencons_ring_recv-queue_example =
    xencons_ring_recv-queue wire 2 start.rings
      (record { prod_lt = omega arith; cons_lt = omega arith; bounded = omega arith })

overflows_iff_test : (overflows 3 4 ≡ true) ↔ (4 ≤ 3 × (3 < 4 + overflow_length))
overflows_iff_test = overflows_iff 3 4 (omega arith) (omega arith)

-- What is printed, when it fits into the ring
crlf_test : crlf two_lines ≡ 97 ∷ 13 ∷ 10 ∷ 98 ∷ 13 ∷ 10 ∷ []
unfolding crlf
crlf_test = refl
