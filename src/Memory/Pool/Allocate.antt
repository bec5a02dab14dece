-- ===== src/Memory/Pool/Allocate.antt =====
-- What `_allocate_pages` promises its caller while the pool itself has the pages.
use guestvm_guk.Base.{
  ℕ, suc, ◌+◌, ◌-◌, ◌≤◌, ◌<◌, ◌≡◌, ◌∙◌, refl, Bool, true, false, ◌||◌, arith, some, none,
  Option-cases, inl, inr,
}
use guestvm_guk.Memory.Bitmap.Ranges.{in_range}
use guestvm_guk.Memory.Scan.FirstFit.{IsRun, find_run-first, find_run-le}
use guestvm_guk.Memory.Pool.{
  Pool, Reserve, is_bulk, search_pages, take_pages, deallocate_pages, allocate_loop, allocate_pages,
}
use guestvm_guk.Memory.Pool.Valid.{
  used, IsValid, IsFreeRun, IsBlock, search_pages-IsFreeRun, used-take_pages, take_pages-IsValid,
  used-deallocate_pages, deallocate_pages-IsValid,
}

-- A run of `n` free pages, at `at`, in the part of the pool that the given search looks at.
abbrev pub HasRun : Pool → Bool → ℕ → ℕ → Type 0
HasRun p true n at = (p.first_free_bulk_page ≤ at) × IsRun p.alloc_bitmap p.end_alloc_page n at
HasRun p false n at = (p.first_free_page ≤ at) × IsRun p.alloc_bitmap p.first_bulk_page n at

-- A search that has a run to find finds one at it or in front of it.
pub search_pages-first :
    (p : Pool) (bulk : Bool) (k at : ℕ)
    → HasRun p bulk (suc k) at
    → (page : ℕ) × (search_pages p bulk (suc k) ≡ some page) × (page ≤ at)
unfolding search_pages
search_pages-first p true k at (h, r) = find_run-first _ _ _ k _ at (omega arith) h r
search_pages-first p false k at (h, r) = find_run-first _ _ _ k _ at (omega arith) h r

-- A search for small pages stays below the bulk region, and one for bulk pages above its start.
search_pages-below :
    (p : Pool) (k page : ℕ)
    → search_pages p false (suc k) ≡ some page
    → page + suc k ≤ p.first_bulk_page
unfolding search_pages
search_pages-below p k page e = (find_run-le _ _ _ k _ page e).1

search_pages-above :
    {p : Pool} (k page : ℕ)
    → IsValid p
    → search_pages p true (suc k) ≡ some page
    → p.first_bulk_page ≤ page
unfolding search_pages
search_pages-above {p} k page v e = omega (
  arith,
  (find_run-le p.alloc_bitmap p.end_alloc_page (p.end_alloc_page - p.first_free_bulk_page) k
      p.first_free_bulk_page page e).0,
  v.bulk_hint,
)

-- What a successful call gives: `n` pages of the pool that were free and are in use now, no other page
-- of the pool changed, and a valid pool.
pub record Allocated (p q : Pool) (n page : ℕ) : Type 0 where
  pub was_free : IsFreeRun p n page
  pub marked : (i : ℕ) → i < p.end_alloc_page → used q i ≡ (used p i || in_range page n i)
  pub valid : IsValid q

take_pages-Allocated :
    {p : Pool} (bulk : Bool) (k page : ℕ)
    → IsValid p
    → search_pages p bulk (suc k) ≡ some page
    → Allocated p (take_pages p bulk (suc k) page) (suc k) page
take_pages-Allocated {p} bulk k page v e = record {
  was_free = r;
  marked = λ i h. used-take_pages bulk (suc k) page i v r h;
  valid = take_pages-IsValid bulk (suc k) page v r;
}
  where
    r : IsFreeRun p (suc k) page
    r = search_pages-IsFreeRun bulk k page v e

-- One round of the search is enough where it finds a run.
pub allocate_loop-found :
    (reserve : Reserve) (fuel : ℕ) (bulk : Bool) (n page : ℕ) (p : Pool)
    → search_pages p bulk n ≡ some page
    → allocate_loop reserve (suc fuel) bulk n p ≡ some (some page, take_pages p bulk n page)
unfolding allocate_loop
allocate_loop-found reserve fuel bulk n page p e = rw (e, allocate_loop)

-- A small request that the small pages cannot meet goes on as a request for bulk pages.
pub allocate_loop-failover :
    (reserve : Reserve) (fuel n : ℕ) (p : Pool)
    → search_pages p false n ≡ none
    → allocate_loop reserve (suc fuel) false n p ≡ allocate_loop reserve fuel true n p
unfolding allocate_loop
allocate_loop-failover reserve fuel n p e = rw (e, allocate_loop)

-- A run of the loop that returns a page.
abbrev Success : Reserve → ℕ → Bool → ℕ → Pool → Type 0
Success reserve fuel bulk n p =
    (page : ℕ) × (q : Pool) × (allocate_loop reserve fuel bulk n p ≡ some (some page, q))
    × Allocated p q n page

module _ (reserve : Reserve) (k at : ℕ) {p : Pool} (v : IsValid p) where
  allocate_loop-bulk :
      (fuel : ℕ) → HasRun p true (suc k) at → Success reserve (suc fuel) true (suc k) p
  allocate_loop-bulk fuel r =
      let (page, e, _) = search_pages-first p true k at r in
      (
        page,
        take_pages p true (suc k) page,
        allocate_loop-found reserve fuel true (suc k) page p e,
        take_pages-Allocated true k page v e,
      )

  allocate_loop-succeeds :
      (bulk : Bool) (fuel : ℕ)
      → HasRun p true (suc k) at
      → Success reserve (suc (suc fuel)) bulk (suc k) p
  allocate_loop-succeeds true fuel r = allocate_loop-bulk (suc fuel) r
  allocate_loop-succeeds false fuel r = elim (Option-cases (search_pages p false (suc k))) [
    | inl e ↦
        let (page, q, found, good) = allocate_loop-bulk fuel r in
        (page, q, allocate_loop-failover reserve (suc fuel) (suc k) p e ∙ found, good)
    | inr (page, e) ↦ (
      page,
      take_pages p false (suc k) page,
      allocate_loop-found reserve (suc fuel) false (suc k) page p e,
      take_pages-Allocated false k page v e,
    )
  ]

  -- While the bulk region behind the start of its search has a run of `n` free pages,
  -- `_allocate_pages` on a valid pool succeeds, whatever the hypervisor does: it returns pages of
  -- the pool that were free, marks those and no others, and leaves the pool valid; a valid pool has
  -- fewer than 2^31 pages in its map.
  pub allocate_pages-succeeds :
      (fuel : ℕ)
      → HasRun p true (suc k) at
      → (page : ℕ) × (q : Pool) × (allocate_pages reserve (suc (suc fuel)) (suc k) p
          ≡ some (some page, q))
        × Allocated p q (suc k) page
  unfolding allocate_pages
  allocate_pages-succeeds fuel r = allocate_loop-succeeds (is_bulk (suc k)) fuel r

  -- While the small region behind the start of its search has a run of `n` free pages, a small
  -- request on a valid pool returns a run of free pages that lies in the small region and starts at
  -- or in front of it, marks those pages and no others, and leaves the pool valid; a valid pool has
  -- fewer than 2^31 pages in its map.
  pub allocate_pages-first_fit :
      (fuel : ℕ)
      → is_bulk (suc k) ≡ false
      → HasRun p false (suc k) at
      → (page : ℕ) × (q : Pool) × (allocate_pages reserve (suc fuel) (suc k) p
          ≡ some (some page, q))
        × Allocated p q (suc k) page
        × (page ≤ at)
        × (page + suc k ≤ p.first_bulk_page)
  unfolding allocate_pages
  allocate_pages-first_fit fuel few r =
      let (page, e, le) = search_pages-first p false k at r in
      (
        page,
        take_pages p false (suc k) page,
        rw few (allocate_loop-found reserve fuel false (suc k) page p e),
        take_pages-Allocated false k page v e,
        le,
        search_pages-below p k page e,
      )

-- What `take_pages` leaves alone.
pub take_pages-bounds :
    (p : Pool) (bulk : Bool) (n page : ℕ)
    → ((take_pages p bulk n page).first_alloc_page ≡ p.first_alloc_page)
      × ((take_pages p bulk n page).end_alloc_page ≡ p.end_alloc_page)
      × ((take_pages p bulk n page).first_bulk_page ≡ p.first_bulk_page)
unfolding take_pages
take_pages-bounds p true n page = (refl, refl, refl)
take_pages-bounds p false n page = (refl, refl, refl)

module _ {p : Pool} (bulk : Bool) (k page : ℕ) (v : IsValid p) where
  module _ (e : search_pages p bulk (suc k) ≡ some page)
      (region : is_bulk (suc k) ≡ true → bulk ≡ true) where
    abbrev taken : Pool
    taken = take_pages p bulk (suc k) page

    IsBlock-take_pages : IsBlock taken (suc k) page
    IsBlock-take_pages = record {
      at_least = omega (arith, r.at_least, take_pages-bounds p bulk (suc k) page);
      below = omega (arith, r.below, take_pages-bounds p bulk (suc k) page);
      taken = λ q a b. ground (arith, used-take_pages bulk (suc k) page q v r, r.below);
      region = λ big. bulk_region bulk (region big) e;
    }
      where
        r : IsFreeRun p (suc k) page
        r = search_pages-IsFreeRun bulk k page v e

        bulk_region :
            (b : Bool)
            → b ≡ true
            → search_pages p b (suc k) ≡ some page
            → (take_pages p bulk (suc k) page).first_bulk_page ≤ page
        bulk_region true t e' =
            omega (arith, search_pages-above k page v e', take_pages-bounds p bulk (suc k) page)
        bulk_region false t e' = cc

    -- Giving back what a search of a valid pool has found and taken restores the state of every
    -- page of the pool and leaves it valid, for a request whose search is the one of its size.
    pub deallocate-take_pages :
        IsValid (deallocate_pages taken page (suc k))
        × ((i : ℕ) → i < p.end_alloc_page → used (deallocate_pages taken page (suc k)) i ≡ used p i)
    deallocate-take_pages = (
      deallocate_pages-IsValid (suc k) page (take_pages-IsValid bulk (suc k) page v r)
          IsBlock-take_pages,
      λ i h. ground (
        arith,
        used-deallocate_pages (suc k) page (take_pages-IsValid bulk (suc k) page v r)
            IsBlock-take_pages i,
        used-take_pages bulk (suc k) page i v r,
        take_pages-bounds p bulk (suc k) page,
        r.free i,
      ),
    )
      where
        r : IsFreeRun p (suc k) page
        r = search_pages-IsFreeRun bulk k page v e
