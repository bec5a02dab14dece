-- ===== src/Memory/Pool/Tests.antt =====
-- A pool of 998 pages, 655 of them small, and the theorems on the pool at it.
use guestvm_guk.Base.{
  ℕ, suc, ◌+◌, ◌-◌, ◌≤◌, ◌<◌, ◌≡◌, refl, ap, ◌∙◌, true, false, arith, [], ◌∷◌, Option, none, some,
}
use guestvm_guk.Memory.Bitmap.{covered}
use guestvm_guk.Memory.Holes.Laws.{Ordered}
use guestvm_guk.Memory.Pool.{
  Pool, Reserve, search_pages, take_pages, deallocate_pages, increase_memory, allocate_pages,
  decreaseable_page_pool, init_page_allocator,
}
use guestvm_guk.Memory.Pool.Count.{count_free}
use guestvm_guk.Memory.Pool.Valid.{
  used, IsValid, IsFreeRun, IsBlock, search_pages-IsFreeRun, used-take_pages, take_pages-IsValid,
  deallocate_pages-IsValid,
}
use guestvm_guk.Memory.Pool.Allocate.{
  Allocated, HasRun, search_pages-first, take_pages-bounds, allocate_pages-succeeds,
  allocate_pages-first_fit, deallocate-take_pages,
}
use guestvm_guk.Memory.Pool.Increase.{
  IsHonest, missing, increase_memory-balance, allocate_pages-returns,
}
use guestvm_guk.Memory.Pool.Leak.{small_block_lost, back, search_pages-behind}
use guestvm_guk.Memory.Pool.Decreaseable.{decreaseable_page_pool-count}
use guestvm_guk.Memory.Pool.Init.{bitmap_too_small, init-IsValid}

-- 32768 pages of reservation, of which the domain has 1000: pages 2 to 656 are small, 657 to 999 bulk.
abbrev start : Pool
start = init_page_allocator 32768 none 1 1000

-- a hypervisor that gives all that it is asked for
abbrev generous : Reserve
generous nr h p = (nr, p)

generous-IsHonest : IsHonest generous
generous-IsHonest = record { bounded = λ nr h p. omega arith; same_holes = λ nr h p. refl }

start-IsValid : IsValid start × ((q : ℕ) → 2 ≤ q → q < 1000 → used start q ≡ false)
start-IsValid = init-IsValid 32768 none 1 1000 (omega arith) (omega arith) (omega arith)

start-ballooned : Pool
start-ballooned = record start {
  memory_hole_list = record { start_pfn = 1000; end_pfn = 1600 } ∷ [];
}

init-IsValid_test : IsValid start × ((q : ℕ) → 2 ≤ q → q < 1000 → used start q ≡ false)
init-IsValid_test = init-IsValid 32768 none 1 1000 (omega arith) (omega arith) (omega arith)

bitmap_too_small_test : covered (init_page_allocator 40000 none 1 40000).alloc_bitmap ≤ 39999
bitmap_too_small_test = bitmap_too_small 40000 none 1 40000 (omega arith)

-- any run of the first `n` bulk pages
bulk_run : (n : ℕ) → n ≤ 343 → HasRun start true n 657
unfolding init_page_allocator
bulk_run n h = (
  omega arith,
  record { below = omega arith; free = λ q a b. start-IsValid.1 q (omega arith) (omega arith) },
)

small_run : HasRun start false 3 5
unfolding init_page_allocator
small_run = (
  omega arith,
  record { below = omega arith; free = λ q a b. start-IsValid.1 q (omega arith) (omega arith) },
)

allocate_pages-succeeds_example :
    (page : ℕ) × (q : Pool) × (allocate_pages generous 2 300 start ≡ some (some page, q))
    × Allocated start q 300 page
allocate_pages-succeeds_example =
    allocate_pages-succeeds generous 299 657 start-IsValid.0 0 (bulk_run 300 (omega arith))

allocate_pages-first_fit_example :
    (page : ℕ) × (q : Pool) × (allocate_pages generous 1 3 start ≡ some (some page, q))
    × Allocated start q 3 page
    × (page ≤ 5)
    × (page + 3 ≤ start.first_bulk_page)
allocate_pages-first_fit_example =
    allocate_pages-first_fit generous 2 5 start-IsValid.0 0 refl small_run

-- three pages from the start of the bulk region
bulk_search : search_pages start true 3 ≡ some start.first_free_bulk_page
unfolding init_page_allocator
bulk_search =
    let (page, e, le) = search_pages-first start true 2 657 (bulk_run 3 (omega arith)) in
    e ∙ ap some (omega (arith, search_pages-behind start 2 page e))

deallocate-take_pages_test :
    IsValid (
      deallocate_pages
        (take_pages start true 3 start.first_free_bulk_page)
        start.first_free_bulk_page
        3)
    × ((i : ℕ)
        → i < start.end_alloc_page
        → used
            (deallocate_pages
              (take_pages start true 3 start.first_free_bulk_page)
              start.first_free_bulk_page
              3)
            i
          ≡ used start i)
deallocate-take_pages_test =
    deallocate-take_pages true 2 start.first_free_bulk_page start-IsValid.0 bulk_search (λ _. refl)

small_block_lost_test :
    (used (back 2 start-IsValid.0) start.first_free_bulk_page ≡ false)
    × ((m at : ℕ)
        → search_pages (back 2 start-IsValid.0) true (suc m) ≡ some at
        → start.first_free_bulk_page < at)
    × ((back 2 start-IsValid.0).num_free_bulk_pages + 3 ≡ start.num_free_bulk_pages)
unfolding init_page_allocator
small_block_lost_test =
    small_block_lost 2 start-IsValid.0 refl bulk_search (omega arith) (omega arith)

increase_memory-balance_test :
    let (result, q) = increase_memory generous 5 start-ballooned in
    (result + missing q ≡ 600) × Ordered 0 q.memory_hole_list
unfolding start-ballooned
increase_memory-balance_test =
    increase_memory-balance generous-IsHonest 0 5 start-ballooned (omega arith)

allocate_pages-returns_example :
    (r : Option ℕ × Pool) × (allocate_pages generous 602 700 start-ballooned ≡ some r)
unfolding start-ballooned
allocate_pages-returns_example =
    allocate_pages-returns generous-IsHonest 0 602 700 start-ballooned (omega arith) (omega arith)

decreaseable_page_pool-count_test :
    decreaseable_page_pool start
    ≡ count_free (used start) start.first_bulk_page (start.end_alloc_page - start.first_bulk_page)
unfolding init_page_allocator
decreaseable_page_pool-count_test = decreaseable_page_pool-count start start-IsValid.0 (omega arith)

-- the first three bulk pages, taken
three_taken : Pool
three_taken = take_pages start true 3 start.first_free_bulk_page

three_taken-IsBlock : IsValid three_taken × IsBlock three_taken 3 657
unfolding three_taken init_page_allocator
three_taken-IsBlock = (
  take_pages-IsValid true 3 657 start-IsValid.0 free,
  record {
    at_least = omega (arith, take_pages-bounds start true 3 657);
    below = omega (arith, take_pages-bounds start true 3 657);
    taken = λ q a b. ground (arith, used-take_pages true 3 657 q start-IsValid.0 free);
    region = λ _. omega (arith, take_pages-bounds start true 3 657);
  },
)
  where
    free : IsFreeRun start 3 657
    free = search_pages-IsFreeRun true 2 657 start-IsValid.0 bulk_search

deallocate_pages-IsValid_example : IsValid (deallocate_pages three_taken 657 3)
deallocate_pages-IsValid_example =
    deallocate_pages-IsValid 3 657 three_taken-IsBlock.0 three_taken-IsBlock.1
