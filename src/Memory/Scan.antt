-- ===== src/Memory/Scan.antt =====
-- The searches of mm.c through the allocation bitmap: `next_free`, and the first-fit search of
-- `_allocate_pages` for `n` free pages in a row.
pub mod NextFree
pub mod FirstFit
mod Tests
use guestvm_guk.Base.{
  ℕ, zero, suc, ◌+◌, ◌-◌, ◌%◌, ◌^◌, Bool, true, false, Option, none, some, List, ltb, ◌==◌,
  if◌then◌else◌,
}
use guestvm_guk.Memory.Bitmap.{allocated_in_map}

-- an `unsigned long` that has gone through an `int`: the low 32 bits, with their sign
unfoldable pub int_page : ℕ → ℕ
int_page page =
    if ltb (page % 2 ^ 32) (2 ^ 31) then page % 2 ^ 32 else page % 2 ^ 32 + (2 ^ 64 - 2 ^ 32)

-- `while (page < end_alloc_page) { if (!allocated) break; page++; }`, with `page` an `int` that is
-- compared as an `unsigned long`. A page that goes past the last `int` is taken to go round. `left` is
-- a bound on the rounds.
unfoldable pub next_free_loop : ℕ → List ℕ → ℕ → ℕ → ℕ
next_free_loop zero map end_alloc_page page = page
next_free_loop (suc left) map end_alloc_page page =
    let more = next_free_loop left map end_alloc_page (int_page (page + 1)) in
    if ltb page end_alloc_page then (if allocated_in_map map page then more else page) else page

-- `next_free`, with `end_alloc_page` as an argument
unfoldable pub next_free : List ℕ → ℕ → ℕ → ℕ
next_free map end_alloc_page page =
    next_free_loop (end_alloc_page - int_page page) map end_alloc_page (int_page page)

-- The inner loop `while (nn > 1 && npage < end_page)`: it returns `nn` and `page` as it leaves them.
unfoldable pub extend_run : List ℕ → ℕ → ℕ → ℕ → ℕ → ℕ × ℕ
extend_run map end_page zero npage page = (0, page)
extend_run map end_page (suc zero) npage page = (1, page)
extend_run map end_page (suc (suc k)) npage page =
    let stop : ℕ × ℕ = (suc (suc k), npage) in
    let more : ℕ × ℕ = extend_run map end_page (suc k) (npage + 1) page in
    if ltb npage end_page
    then (if allocated_in_map map npage then stop else more)
    else (suc (suc k), page)

-- The outer loop `while (page < end_page)`, with the page of the run that it finds. `left` is
-- `end_page - page`, which every round lowers.
unfoldable pub find_run : ℕ → List ℕ → ℕ → ℕ → ℕ → Option ℕ
find_run zero map end_page n page = none
find_run (suc left) map end_page n page =
    let (nn, at) = extend_run map end_page n (page + 1) page in
    let skip : Option ℕ = find_run left map end_page n (page + 1) in
    let resume : Option ℕ = find_run left map end_page n (at + 1) in
    if ltb page end_page
    then (if allocated_in_map map page then skip else if nn == 1 then some at else resume)
    else none
