-- ===== src/Memory/Pool/Leak.antt =====
-- Small blocks that `_allocate_pages` has put into the bulk region, and what giving them back does.
use guestvm_guk.Base.{ℕ, suc, ◌+◌, ◌-◌, ◌^◌, ◌≤◌, ◌<◌, ◌≡◌, refl, true, false, arith, some}
use guestvm_guk.Memory.Scan.FirstFit.{find_run-le}
use guestvm_guk.Memory.Scan.NextFree.{next_free-first}
use guestvm_guk.Memory.Pool.{Pool, is_bulk, search_pages, take_pages, deallocate_pages}
use guestvm_guk.Memory.Pool.Valid.{used, IsValid, IsFreeRun, search_pages-IsFreeRun}
use guestvm_guk.Memory.Pool.Allocate.{deallocate-take_pages}

pub search_pages-behind :
    (q : Pool) (m at : ℕ) → search_pages q true (suc m) ≡ some at → q.first_free_bulk_page ≤ at
unfolding search_pages
search_pages-behind q m at e =
    (find_run-le q.alloc_bitmap q.end_alloc_page (q.end_alloc_page - q.first_free_bulk_page) m
      q.first_free_bulk_page at e).0

module _ {p : Pool} (k : ℕ) (v : IsValid p) where
  -- the pool after a block of `k + 1` pages was taken where the bulk search starts, and given back
  abbrev pub back : Pool
  back =
      deallocate_pages (take_pages p true (suc k) p.first_free_bulk_page) p.first_free_bulk_page
        (suc k)

  hint_passes :
      is_bulk (suc k) ≡ false
      → search_pages p true (suc k) ≡ some p.first_free_bulk_page
      → p.first_free_bulk_page < back.first_free_bulk_page
  unfolding take_pages deallocate_pages
  hint_passes few e = ground (
    arith,
    next_free-first p.alloc_bitmap p.end_alloc_page (p.first_free_bulk_page + suc k)
        (omega (arith, v.covers, v.small)) r.below,
  )
    where
      r : IsFreeRun p (suc k) p.first_free_bulk_page
      r = search_pages-IsFreeRun true k p.first_free_bulk_page v e

  lost_count :
      is_bulk (suc k) ≡ false
      → suc k ≤ p.num_free_bulk_pages
      → p.num_free_bulk_pages < 2 ^ 64
      → back.num_free_bulk_pages + suc k ≡ p.num_free_bulk_pages
  unfolding take_pages deallocate_pages
  lost_count few a b = ground arith

  -- When a small block is taken where the bulk search of a valid pool starts and is given back, its
  -- first page is free, but every bulk search in that state passes it by, and the count of free
  -- bulk pages stays short by the size of the block.
  pub small_block_lost :
      is_bulk (suc k) ≡ false
      → search_pages p true (suc k) ≡ some p.first_free_bulk_page
      → suc k ≤ p.num_free_bulk_pages
      → p.num_free_bulk_pages < 2 ^ 64
      → (used back p.first_free_bulk_page ≡ false)
        × ((m at : ℕ) → search_pages back true (suc m) ≡ some at → p.first_free_bulk_page < at)
        × (back.num_free_bulk_pages + suc k ≡ p.num_free_bulk_pages)
  small_block_lost few e enough small = (
    ground (
      arith,
      (deallocate-take_pages true k p.first_free_bulk_page v e (λ _. refl)).1
          p.first_free_bulk_page,
      r.free p.first_free_bulk_page,
      r.below,
    ),
    λ m at found. omega (arith, search_pages-behind back m at found, hint_passes few e),
    lost_count few enough small,
  )
    where
      r : IsFreeRun p (suc k) p.first_free_bulk_page
      r = search_pages-IsFreeRun true k p.first_free_bulk_page v e
