-- ===== src/Memory/Holes/Laws.antt =====
-- The hole list stays ordered, and its sums are what mm.c takes them for.
use guestvm_guk.Base.{
  ℕ, ◌+◌, ◌-◌, ◌%◌, ◌^◌, ◌≤◌, ◌<◌, ◌≡◌, ◌≢◌, ◌⊎◌, Bool-cases, inl, inr, ◌↔◌, refl, List, [], ◌∷◌,
  ltb, arith,
}
use guestvm_guk.Memory.Holes.{
  Hole, hole_size, memory_hole_add, can_increase, sum_holes, current_reservation,
}

-- Every hole of the list starts at or behind `low` and ends before the next starts.
abbrev pub Ordered : ℕ → List Hole → Type 0
Ordered low [] = Unit
Ordered low (h ∷ holes) =
    (low ≤ h.start_pfn) × (h.start_pfn ≤ h.end_pfn) × (h.end_pfn < 2 ^ 64) × Ordered h.end_pfn holes

-- No hole of the list shares a page with `new`.
abbrev pub Apart : Hole → List Hole → Type 0
Apart new [] = Unit
Apart new (h ∷ holes) =
    ((new.end_pfn ≤ h.start_pfn) ⊎ (h.end_pfn ≤ new.start_pfn)) × Apart new holes

-- pages in the holes of a list
abbrev pub total_pages : List Hole → ℕ
total_pages [] = 0
total_pages (h ∷ holes) = (h.end_pfn - h.start_pfn) + total_pages holes

pub Ordered-lower : (a b : ℕ) (holes : List Hole) → a ≤ b → Ordered b holes → Ordered a holes
Ordered-lower a b [] h o = tt
Ordered-lower a b (x ∷ holes) h o = (omega arith, o.1, o.2, o.3)

-- `memory_hole_add` keeps the hole list ordered by address and its holes apart, if the new hole has
-- a page and shares none with the holes of the list.
pub memory_hole_add-Ordered :
    (new : Hole) (low : ℕ) (holes : List Hole)
    → low ≤ new.start_pfn
    → new.start_pfn < new.end_pfn
    → new.end_pfn < 2 ^ 64
    → Ordered low holes
    → Apart new holes
    → Ordered low (memory_hole_add new holes)
unfolding memory_hole_add
memory_hole_add-Ordered new low [] a b c o d = (a, omega arith, c, tt)
memory_hole_add-Ordered new low (h ∷ holes) a b c o d =
    elim (Bool-cases (ltb new.start_pfn h.start_pfn)) [
      | inl before ↦ rw before (a, omega arith, c, (ground arith, o.1, o.2, o.3))
      | inr behind ↦
          rw behind
            (o.0, o.1, o.2, memory_hole_add-Ordered new h.end_pfn holes (ground arith) b c o.3 d.1)
    ]

-- The pages of the new hole are added.
pub total_pages-memory_hole_add :
    (new : Hole) (holes : List Hole)
    → total_pages (memory_hole_add new holes) ≡ (new.end_pfn - new.start_pfn) + total_pages holes
unfolding memory_hole_add
total_pages-memory_hole_add new [] = refl
total_pages-memory_hole_add new (h ∷ holes) = ground (arith, total_pages-memory_hole_add new holes)

-- For a hole list in order, `can_increase n` is not zero exactly when `n` is not zero and the holes
-- have at least `n` pages together.
pub can_increase_iff :
    (n low : ℕ) (holes : List Hole)
    → Ordered low holes
    → (can_increase n holes ≢ 0) ↔ ((0 < n) × (n ≤ total_pages holes))
unfolding can_increase
can_increase_iff n low [] o = ((λ h. absurd (h refl)), (λ h. absurd (omega arith)))
can_increase_iff n low (h ∷ holes) o =
    ground (arith, can_increase_iff (n - hole_size h) h.end_pfn holes)

sum_holes_lem :
    (acc low : ℕ) (holes : List Hole)
    → Ordered low holes
    → acc + total_pages holes < 2 ^ 64
    → sum_holes acc holes ≡ acc + total_pages holes
unfolding sum_holes
sum_holes_lem acc low [] o small = omega arith
sum_holes_lem acc low (h ∷ holes) o small =
    ground (arith, sum_holes_lem ((acc + hole_size h) % 2 ^ 64) h.end_pfn holes)

-- `guk_current_reservation` is the maximal reservation less the pages in the holes, for a hole list
-- in order that fits the reservation.
pub current_reservation_lem :
    (max_end low : ℕ) (holes : List Hole)
    → Ordered low holes
    → max_end < 2 ^ 64
    → total_pages holes ≤ max_end
    → current_reservation max_end holes + total_pages holes ≡ max_end
unfolding current_reservation
current_reservation_lem max_end low holes o small fit =
    omega (arith, sum_holes_lem 0 low holes o (omega arith))
