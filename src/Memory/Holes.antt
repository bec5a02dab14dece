-- ===== src/Memory/Holes.antt =====
-- `memory_hole_list` of mm.c: the parts of the physical address space without memory, for ballooning.
pub mod Laws
mod Tests
use guestvm_guk.Base.{ℕ, ◌+◌, ◌-◌, ◌%◌, ◌^◌, List, [], ◌∷◌, ltb, leb, if◌then◌else◌}

-- `memory_hole_t`: the pages from `start_pfn` up to, not including, `end_pfn`.
pub record Hole : Type 0 where
  pub start_pfn : ℕ
  pub end_pfn : ℕ

-- `unsigned long` subtraction wraps.
abbrev pub sub_long : ℕ → ℕ → ℕ
sub_long a b = (a + 2 ^ 64 - b) % 2 ^ 64

abbrev pub hole_size : Hole → ℕ
hole_size h = sub_long h.end_pfn h.start_pfn

-- `memory_hole_add` inserts in front of the first hole that starts later.
pub memory_hole_add : Hole → List Hole → List Hole
memory_hole_add new [] = new ∷ []
memory_hole_add new (h ∷ holes) =
    if ltb new.start_pfn h.start_pfn then new ∷ h ∷ holes else h ∷ memory_hole_add new holes

-- `can_increase`
unfoldable pub can_increase : ℕ → List Hole → ℕ
can_increase n [] = 0
can_increase n (h ∷ holes) = if leb n (hole_size h) then n else can_increase (n - hole_size h) holes

-- the sum that `guk_current_reservation` forms, and its result
pub sum_holes : ℕ → List Hole → ℕ
sum_holes result [] = result
sum_holes result (h ∷ holes) = sum_holes ((result + hole_size h) % 2 ^ 64) holes

pub current_reservation : ℕ → List Hole → ℕ
current_reservation max_end_alloc_page holes = sub_long max_end_alloc_page (sum_holes 0 holes)
