-- ===== src/Memory/Pool.antt =====
-- The page pool of mm.c: its variables, `_allocate_pages`, `guk_deallocate_pages`, the increase and the
-- decrease of the pool, and `init_page_allocator`. Pages are physical page numbers: the source returns
-- the address `to_virt(PFN_PHYS(page))`, which is never 0.
pub mod Count
pub mod Valid
pub mod Fixed
pub mod Allocate
pub mod Increase
pub mod Leak
pub mod Decreaseable
pub mod Init
mod Tests
use guestvm_guk.Base.{
  ℕ, zero, suc, ◌+◌, ◌-◌, ◌*◌, ◌/◌, ◌%◌, ◌^◌, Bool, true, false, not, ◌&&◌, Option, none, some,
  List, [], ◌∷◌, ltb, leb, ◌==◌, if◌then◌else◌, replicate,
}
use guestvm_guk.Memory.Bitmap.{allocated_in_map, map_alloc, map_free, add_long}
use guestvm_guk.Memory.Scan.{next_free, find_run}
use guestvm_guk.Memory.Holes.{Hole, hole_size, sub_long, can_increase}

pub record Pool : Type 0 where
  pub alloc_bitmap : List ℕ
  pub first_alloc_page : ℕ
  pub end_alloc_page : ℕ
  pub max_end_alloc_page : ℕ
  pub first_free_page : ℕ
  pub first_bulk_page : ℕ
  pub first_free_bulk_page : ℕ
  pub num_free_pages : ℕ
  pub num_free_bulk_pages : ℕ
  pub memory_hole_list : List Hole
  pub in_increase_memory : Bool

-- `BULK_ALLOCATION` and `is_bulk`
abbrev pub is_bulk : ℕ → Bool
is_bulk n = leb 512 n

-- One round of the search of `_allocate_pages`: where it starts and ends, and what it finds.
unfoldable pub search_pages : Pool → Bool → ℕ → Option ℕ
search_pages p true n =
    find_run (p.end_alloc_page - p.first_free_bulk_page) p.alloc_bitmap p.end_alloc_page n
      p.first_free_bulk_page
search_pages p false n =
    find_run (p.first_bulk_page - p.first_free_page) p.alloc_bitmap p.first_bulk_page n
      p.first_free_page

-- What `_allocate_pages` does with the run of `n` pages that it has found at `page`.
unfoldable pub take_pages : Pool → Bool → ℕ → ℕ → Pool
take_pages p true n page = record p {
  alloc_bitmap = map_alloc p.alloc_bitmap page n;
  first_free_bulk_page =
      if page == p.first_free_bulk_page
      then next_free p.alloc_bitmap p.end_alloc_page (page + n)
      else p.first_free_bulk_page;
  num_free_pages = sub_long p.num_free_pages n;
  num_free_bulk_pages = sub_long p.num_free_bulk_pages n;
}
take_pages p false n page = record p {
  alloc_bitmap = map_alloc p.alloc_bitmap page n;
  first_free_page =
      if page == p.first_free_page
      then next_free p.alloc_bitmap p.end_alloc_page (page + n)
      else p.first_free_page;
  num_free_pages = sub_long p.num_free_pages n;
}

-- `guk_deallocate_pages` while it holds `bitmap_lock`
abbrev pub deallocate_locked : Pool → ℕ → ℕ → Pool
deallocate_locked p page n =
    if is_bulk n
    then record p {
      alloc_bitmap = map_free p.alloc_bitmap page n;
      first_free_bulk_page =
          if ltb page p.first_free_bulk_page then page else p.first_free_bulk_page;
      num_free_bulk_pages = add_long p.num_free_bulk_pages n;
    }
    else record p {
      alloc_bitmap = map_free p.alloc_bitmap page n;
      first_free_page = if ltb page p.first_free_page then page else p.first_free_page;
    }

-- `num_free_pages += n`, which the code does behind the lock
abbrev pub count_freed : ℕ → Pool → Pool
count_freed n p = record p { num_free_pages = add_long p.num_free_pages n }

-- `guk_deallocate_pages`, where no other call changes the pool between its two steps
unfoldable pub deallocate_pages : Pool → ℕ → ℕ → Pool
deallocate_pages p page n = count_freed n (deallocate_locked p page n)

-- The hole list after `rc` pages of its first hole `h` have got memory.
pub shrink_head : Hole → ℕ → List Hole → List Hole
shrink_head h rc [] = []
shrink_head h rc (_ ∷ holes) =
    if hole_size h == rc then holes else record h { start_pfn = add_long h.start_pfn rc } ∷ holes

-- the bookkeeping for `rc` pages more at the start of the first hole
pub grow : Pool → Hole → ℕ → Pool
grow p h rc = record p {
  alloc_bitmap = map_free p.alloc_bitmap h.start_pfn rc;
  end_alloc_page =
      if ltb p.end_alloc_page (add_long h.start_pfn rc)
      then add_long h.start_pfn rc
      else p.end_alloc_page;
  num_free_pages = add_long p.num_free_pages rc;
  num_free_bulk_pages = add_long p.num_free_bulk_pages rc;
  memory_hole_list = shrink_head h rc p.memory_hole_list;
}

-- What the pool asks of `increase_reservation`, for `nr_pages` pages at the start of a hole: the number
-- of pages that it has got, 0 for a failure, and the pool as it finds it when it has the lock again.
abbrev pub Reserve : Type 0
Reserve = ℕ → Hole → Pool → ℕ × Pool

-- One round of the loop `while (n > 0)` of `increase_memory_holding_lock`, at the hole list `holes`;
-- `next` goes on with what is left. The source reads the head of an empty list where this one stops.
pub increase_round : Reserve → (ℕ → ℕ → Pool → ℕ × Pool) → ℕ → ℕ → Pool → List Hole → ℕ × Pool
increase_round reserve next n result p [] = (result, p)
increase_round reserve next n result p (h ∷ _) =
    let nn = if leb (hole_size h) n then hole_size h else n in
    let (rc, p') = reserve nn h p in
    if n == 0
    then (result, p)
    else if rc == 0
    then (result, p')
    else next (n - rc) (result + rc) (grow p' h rc)

-- The loop; it ends by its own test or `break` when `fuel` is not below `n`.
pub increase_loop : Reserve → ℕ → ℕ → ℕ → Pool → ℕ × Pool
increase_loop reserve zero n result p = (result, p)
increase_loop reserve (suc fuel) n result p =
    increase_round reserve (increase_loop reserve fuel) n result p p.memory_hole_list

-- `increase_memory_holding_lock`, with its flag as the last argument: a recursive entry gives up and
-- clears the flag.
pub enter_increase : Reserve → ℕ → Pool → Bool → ℕ × Pool
enter_increase reserve n p true = (0, record p { in_increase_memory = false })
enter_increase reserve n p false =
    let entered = record p { in_increase_memory = true } in
    let (result, p') =
      if can_increase n p.memory_hole_list == 0
      then (0, entered)
      else increase_loop reserve n n 0 entered in
    (result, record p' { in_increase_memory = false })

pub increase_memory : Reserve → ℕ → Pool → ℕ × Pool
increase_memory reserve n p = enter_increase reserve n p p.in_increase_memory

-- The loop `while (result == 0)` of `_allocate_pages`: the small pages, then the bulk pages, then more
-- memory and the bulk pages again. `none` means that the fuel ran out.
unfoldable pub allocate_loop : Reserve → ℕ → Bool → ℕ → Pool → Option (Option ℕ × Pool)
allocate_loop reserve zero bulk n p = none
allocate_loop reserve (suc fuel) bulk n p = elim (search_pages p bulk n) [
  | some page ↦ some (some page, take_pages p bulk n page)
  | none ↦
      let retry : Option (Option ℕ × Pool) = allocate_loop reserve fuel true n p in
      let (got, p') = increase_memory reserve n p in
      let again : Option (Option ℕ × Pool) = allocate_loop reserve fuel true n p' in
      if not bulk then retry else if got == 0 then some (none, p') else again
]

unfoldable pub allocate_pages : Reserve → ℕ → ℕ → Pool → Option (Option ℕ × Pool)
allocate_pages reserve fuel n p = allocate_loop reserve fuel (is_bulk n) n p

-- The inner loop of `guk_decreaseable_page_pool`: down over free pages of the bulk region, counting them
-- in `n`. Each of its loops goes down by a page a round.
pub free_down : ℕ → List ℕ → ℕ → ℕ → ℕ → ℕ × ℕ
free_down zero map first_bulk page n = (page, n)
free_down (suc rounds) map first_bulk page n =
    let more : ℕ × ℕ = free_down rounds map first_bulk (sub_long page 1) (n + 1) in
    if not (allocated_in_map map page) && leb first_bulk page then more else (page, n)

pub decreaseable_loop : ℕ → List ℕ → ℕ → ℕ → ℕ → ℕ
decreaseable_loop zero map first_bulk page n = n
decreaseable_loop (suc rounds) map first_bulk page n =
    let (page', n') = free_down (suc rounds) map first_bulk page n in
    let skip : ℕ = decreaseable_loop rounds map first_bulk (sub_long page 1) n in
    let more : ℕ = decreaseable_loop rounds map first_bulk (sub_long page' 1) n' in
    if leb first_bulk page then (if allocated_in_map map page then skip else more) else n

pub decreaseable_page_pool : Pool → ℕ
decreaseable_page_pool p =
    decreaseable_loop (p.end_alloc_page - p.first_bulk_page) p.alloc_bitmap p.first_bulk_page
      (sub_long p.end_alloc_page 1) 0

-- `init_page_allocator`. `min` and `max` bound the pages, `reservation` is the maximal reservation that
-- Xen tells, and `small_option` the value of the option, if it is given.
pub init_page_allocator : ℕ → Option ℕ → ℕ → ℕ → Pool
init_page_allocator reservation small_option min max =
    let bitmap_pages = reservation / 32768 in
    let first_alloc = min + bitmap_pages in
    let small_pct : ℕ = elim small_option [ none ↦ 2 | some pct ↦ pct ] in
    let bulk = first_alloc + reservation * small_pct % 2 ^ 64 / 100 in
    let first_bulk = if ltb max bulk then max else bulk in
    record {
      alloc_bitmap =
          map_free (replicate (bitmap_pages * 4096 / 8) (2 ^ 64 - 1)) first_alloc
            (sub_long max first_alloc);
      first_alloc_page = first_alloc;
      end_alloc_page = max;
      max_end_alloc_page = reservation;
      first_free_page = first_alloc;
      first_bulk_page = first_bulk;
      first_free_bulk_page = first_bulk;
      num_free_pages = sub_long max first_alloc;
      num_free_bulk_pages = sub_long max first_bulk;
      memory_hole_list = [];
      in_increase_memory = false;
    }
