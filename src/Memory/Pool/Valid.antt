-- ===== src/Memory/Pool/Valid.antt =====
-- What holds of the page pool between calls, and that taking and giving back pages keeps it.
use guestvm_guk.Base.{
  ℕ, suc, ◌+◌, ◌-◌, ◌^◌, ◌≤◌, ◌<◌, ◌≡◌, Bool, true, false, not, ◌&&◌, ◌||◌, arith, some, Bool-cases,
  inl, inr,
}
use guestvm_guk.Memory.Bitmap.{allocated_in_map, covered}
use guestvm_guk.Memory.Bitmap.Ranges.{
  in_range, allocated_in_map-map_alloc, allocated_in_map-map_free, covered-map_alloc,
  covered-map_free,
}
use guestvm_guk.Memory.Scan.{next_free}
use guestvm_guk.Memory.Scan.NextFree.{next_free-first}
use guestvm_guk.Memory.Scan.FirstFit.{find_run-le, find_run-free}
use guestvm_guk.Memory.Pool.{Pool, is_bulk, search_pages, take_pages, deallocate_pages}
use guestvm_guk.Memory.Pool.Count.{count_free, count_free-le, count_free-taken, count_free-freed}

-- the state of a page
abbrev pub used : Pool → ℕ → Bool
used p = allocated_in_map p.alloc_bitmap

-- the free pages of the pool
abbrev pub free_pages : Pool → ℕ
free_pages p = count_free (used p) p.first_alloc_page (p.end_alloc_page - p.first_alloc_page)

pub record IsValid (p : Pool) : Type 0 where
  pub covers : p.end_alloc_page ≤ covered p.alloc_bitmap
  pub small : covered p.alloc_bitmap < 2 ^ 31
  pub small_region : p.first_alloc_page ≤ p.first_bulk_page
  pub bulk_region : p.first_bulk_page ≤ p.end_alloc_page
  pub small_hint : p.first_alloc_page ≤ p.first_free_page
  pub bulk_hint : p.first_bulk_page ≤ p.first_free_bulk_page
  pub small_bound : p.first_free_page ≤ p.end_alloc_page
  -- No free page of the small region lies below the page where the search for small pages starts.
  pub passed :
      (q : ℕ)
      → p.first_alloc_page ≤ q
      → q < p.first_bulk_page
      → q < p.first_free_page
      → used p q ≡ true
  pub counted : p.num_free_pages ≡ free_pages p

-- The `n` pages from `page` on belong to the pool and are free.
pub record IsFreeRun (p : Pool) (n page : ℕ) : Type 0 where
  pub at_least : p.first_alloc_page ≤ page
  pub below : page + n ≤ p.end_alloc_page
  pub free : (q : ℕ) → page ≤ q → q < page + n → used p q ≡ false

-- A search finds free pages of the pool only.
pub search_pages-IsFreeRun :
    {p : Pool} (bulk : Bool) (k page : ℕ)
    → IsValid p
    → search_pages p bulk (suc k) ≡ some page
    → IsFreeRun p (suc k) page
unfolding search_pages
search_pages-IsFreeRun {p} true k page v e = record {
  at_least = omega (arith, bounds);
  below = bounds.1;
  free = λ q a b. find_run-free _ _ _ k _ page q e a b;
}
  where
    bounds : (p.first_free_bulk_page ≤ page) × (page + suc k ≤ p.end_alloc_page)
    bounds = find_run-le _ _ _ k _ page e
search_pages-IsFreeRun {p} false k page v e = record {
  at_least = omega (arith, bounds);
  below = omega (arith, bounds);
  free = λ q a b. find_run-free _ _ _ k _ page q e a b;
}
  where
    bounds : (p.first_free_page ≤ page) × (page + suc k ≤ p.first_bulk_page)
    bounds = find_run-le _ _ _ k _ page e

-- Taking a free run marks exactly its pages.
pub used-take_pages :
    {p : Pool} (bulk : Bool) (n page q : ℕ)
    → IsValid p
    → IsFreeRun p n page
    → q < p.end_alloc_page
    → used (take_pages p bulk n page) q ≡ (used p q || in_range page n q)
unfolding take_pages
used-take_pages {p} true n page q v r h =
    allocated_in_map-map_alloc p.alloc_bitmap page n q (omega arith) (omega arith)
used-take_pages {p} false n page q v r h =
    allocated_in_map-map_alloc p.alloc_bitmap page n q (omega arith) (omega arith)

-- the page after a taken run from which the next search may start
next_free_lem :
    {p : Pool} (n page : ℕ)
    → IsValid p
    → IsFreeRun p n page
    → (page + n ≤ next_free p.alloc_bitmap p.end_alloc_page (page + n))
      × (next_free p.alloc_bitmap p.end_alloc_page (page + n) ≤ p.end_alloc_page)
next_free_lem {p} n page v r =
    let (a, b, _, _) =
      next_free-first p.alloc_bitmap p.end_alloc_page (page + n) (omega (arith, v.covers, v.small))
        r.below in
    (a, b)

counted-take_pages :
    {p : Pool} (bulk : Bool) (n page : ℕ)
    → IsValid p
    → IsFreeRun p n page
    → count_free
          (used (take_pages p bulk n page))
          p.first_alloc_page
          (p.end_alloc_page - p.first_alloc_page)
        + n
      ≡ free_pages p
counted-take_pages {p} bulk n page v r = omega (
  arith,
  count_free-taken (used p) (used (take_pages p bulk n page)) page n p.first_alloc_page
      (p.end_alloc_page - p.first_alloc_page)
      (λ q a b. used-take_pages bulk n page q v r (omega arith)) (λ q a b c d. r.free q c d),
  r.below,
  r.at_least,
)

passed-take_pages :
    {p : Pool} (n page q : ℕ)
    → IsValid p
    → IsFreeRun p n page
    → p.first_alloc_page ≤ q
    → q < p.first_bulk_page
    → q < (take_pages p false n page).first_free_page
    → used (take_pages p false n page) q ≡ true
unfolding take_pages
passed-take_pages {p} n page q v r a b c = ground (
  arith,
  used-take_pages false n page q v r (omega arith),
  v.passed q,
  (next_free-first p.alloc_bitmap p.end_alloc_page (page + n) (omega (arith, v.covers, v.small))
        r.below).2
      q,
)

-- No counter of free pages is near the end of its range.
num_free-lt : {p : Pool} → IsValid p → p.num_free_pages < 2 ^ 31
num_free-lt {p} v = omega (
  arith,
  count_free-le (used p) p.first_alloc_page (p.end_alloc_page - p.first_alloc_page),
  v.covers,
  v.small,
  v.counted,
)

-- Taking a free run of `n` pages keeps the pool valid, on the small and on the bulk path.
pub take_pages-IsValid :
    {p : Pool} (bulk : Bool) (n page : ℕ)
    → IsValid p
    → IsFreeRun p n page
    → IsValid (take_pages p bulk n page)
unfolding take_pages
take_pages-IsValid {p} true n page v r = record {
  covers = omega (arith, covered-map_alloc p.alloc_bitmap page n, v.covers);
  small = omega (arith, covered-map_alloc p.alloc_bitmap page n, v.small);
  small_region = v.small_region;
  bulk_region = v.bulk_region;
  small_hint = v.small_hint;
  bulk_hint = ground (arith, v.bulk_hint, next_free_lem n page v r);
  small_bound = v.small_bound;
  passed = λ q a b c. ground (arith, v.passed q, used-take_pages true n page q v r);
  counted = omega (arith, counted-take_pages true n page v r, v.counted, num_free-lt v);
}
take_pages-IsValid {p} false n page v r = record {
  covers = omega (arith, covered-map_alloc p.alloc_bitmap page n, v.covers);
  small = omega (arith, covered-map_alloc p.alloc_bitmap page n, v.small);
  small_region = v.small_region;
  bulk_region = v.bulk_region;
  small_hint = ground (arith, v.small_hint, next_free_lem n page v r, r.at_least);
  bulk_hint = v.bulk_hint;
  small_bound = ground (arith, v.small_bound, next_free_lem n page v r);
  passed = λ q a b c. passed-take_pages n page q v r a b c;
  counted = omega (arith, counted-take_pages false n page v r, v.counted, num_free-lt v);
}

-- The `n` pages from `page` on belong to the pool and are in use; a bulk block lies in the bulk region.
pub record IsBlock (p : Pool) (n page : ℕ) : Type 0 where
  pub at_least : p.first_alloc_page ≤ page
  pub below : page + n ≤ p.end_alloc_page
  pub taken : (q : ℕ) → page ≤ q → q < page + n → used p q ≡ true
  pub region : is_bulk n ≡ true → p.first_bulk_page ≤ page

module _ {p : Pool} (n page : ℕ) (v : IsValid p) (r : IsBlock p n page) where
  -- Giving a block back frees exactly its pages.
  pub used-deallocate_pages :
      (q : ℕ)
      → q < p.end_alloc_page
      → used (deallocate_pages p page n) q ≡ (used p q && not (in_range page n q))
  unfolding deallocate_pages
  used-deallocate_pages q h = elim (Bool-cases (is_bulk n)) [
    | inl bulk ↦ rw bulk (allocated_in_map-map_free p.alloc_bitmap page n q small inside)
    | inr few ↦ rw few (allocated_in_map-map_free p.alloc_bitmap page n q small inside)
  ]
    where
      small : page + n < 2 ^ 64
      small = omega (arith, v.covers, v.small, r.below)

      inside : q < covered p.alloc_bitmap
      inside = omega (arith, v.covers)

  counted-deallocate_pages :
      count_free
        (used (deallocate_pages p page n))
        p.first_alloc_page
        (p.end_alloc_page - p.first_alloc_page)
      ≡ free_pages p + n
  counted-deallocate_pages = omega (
    arith,
    count_free-freed (used p) (used (deallocate_pages p page n)) page n p.first_alloc_page
        (p.end_alloc_page - p.first_alloc_page) (λ q a b. used-deallocate_pages q (omega arith))
        r.taken,
    r.below,
    r.at_least,
  )

  passed-deallocate_pages :
      (q : ℕ)
      → p.first_alloc_page ≤ q
      → q < p.first_bulk_page
      → q < (deallocate_pages p page n).first_free_page
      → used (deallocate_pages p page n) q ≡ true
  unfolding deallocate_pages
  passed-deallocate_pages q a b c =
      ground (arith, used-deallocate_pages q, v.passed q, v.bulk_region, r.region)

  -- Giving back a block that is in use, by a `guk_deallocate_pages` during which no other call
  -- changes the pool, keeps the invariant of a pool of fewer than 2^31 pages: the regions, the page
  -- where the search for small pages starts, and the count of free pages, which the code changes
  -- behind the lock; a block of 512 pages or more lies in the bulk region.
  pub deallocate_pages-IsValid : IsValid (deallocate_pages p page n)
  unfolding deallocate_pages
  deallocate_pages-IsValid = record {
    covers = ground (arith, covered-map_free p.alloc_bitmap page n, v.covers);
    small = ground (arith, covered-map_free p.alloc_bitmap page n, v.small);
    small_region = ground (arith, v.small_region);
    bulk_region = ground (arith, v.bulk_region);
    small_hint = ground (arith, v.small_hint, r.at_least);
    bulk_hint = ground (arith, v.bulk_hint, r.region);
    small_bound = ground (arith, v.small_bound);
    passed = λ q a b c. ground (arith, passed-deallocate_pages q);
    counted =
        ground
          (arith, counted-deallocate_pages, v.counted, r.below, v.covers, v.small, num_free-lt v);
  }
