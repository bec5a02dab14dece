-- ===== src/Memory/Holes/Tests.antt =====
-- Two holes, and the theorems on the hole list at them.
use guestvm_guk.Base.{◌+◌, ◌≡◌, ◌≢◌, ◌↔◌, ◌<◌, ◌≤◌, refl, arith, List, [], ◌∷◌}
use guestvm_guk.Memory.Holes.{Hole, memory_hole_add, can_increase, current_reservation}
use guestvm_guk.Memory.Holes.Laws.{
  Ordered, memory_hole_add-Ordered, can_increase_iff, current_reservation_lem,
}

abbrev two_holes : List Hole
two_holes = record { start_pfn = 10; end_pfn = 13 } ∷ record { start_pfn = 20; end_pfn = 25 } ∷ []

-- The result of `can_increase` is what is wanted from the last hole that it looks at.
can_increase-rest : can_increase 6 two_holes ≡ 3
unfolding can_increase
can_increase-rest = refl

memory_hole_add-Ordered_test :
    Ordered 0 (memory_hole_add (record { start_pfn = 15; end_pfn = 18 }) two_holes)
memory_hole_add-Ordered_test =
    memory_hole_add-Ordered (record { start_pfn = 15; end_pfn = 18 }) 0 two_holes (omega arith)
      (omega arith) (omega arith) (omega arith) (omega arith)

can_increase_iff_test : (can_increase 6 two_holes ≢ 0) ↔ ((0 < 6) × (6 ≤ 8))
can_increase_iff_test = can_increase_iff 6 0 two_holes (omega arith)

current_reservation_lem_test : current_reservation 25 two_holes + 8 ≡ 25
current_reservation_lem_test =
    current_reservation_lem 25 0 two_holes (omega arith) (omega arith) (omega arith)
