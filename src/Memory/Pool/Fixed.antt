-- ===== src/Memory/Pool/Fixed.antt =====
-- A page pool without holes, which cannot grow: what it does to the pages in use, whatever else holds of it.
use guestvm_guk.Base.{
  ℕ, zero, suc, ◌+◌, ◌-◌, ◌^◌, ◌≤◌, ◌<◌, ◌≡◌, refl, sym, ap, ◌∙◌, subst, Bool, true, false, not,
  ◌&&◌, ◌||◌, arith, Option, none, some, [], ltb, Bool-cases, Option-cases, inl, inr, dec_lt,
}
use guestvm_guk.Memory.Bitmap.{allocated_in_map, map_alloc, map_free, covered}
use guestvm_guk.Memory.Bitmap.Ranges.{
  in_range, allocated_in_map-map_alloc, allocated_in_map-map_free, covered-map_alloc,
  covered-map_free,
}
use guestvm_guk.Memory.Scan.FirstFit.{find_run-le, find_run-free}
use guestvm_guk.Memory.Holes.{can_increase}
use guestvm_guk.Memory.Pool.{
  Pool, Reserve, is_bulk, search_pages, take_pages, deallocate_pages, enter_increase,
  increase_memory, allocate_loop, allocate_pages,
}
use guestvm_guk.Memory.Pool.Valid.{used}
use guestvm_guk.Memory.Pool.Allocate.{allocate_loop-found, allocate_loop-failover}

-- what the bitmap needs of a pool that cannot grow
pub record IsFixed (p : Pool) : Type 0 where
  pub covers : p.end_alloc_page ≤ covered p.alloc_bitmap
  pub small : covered p.alloc_bitmap < 2 ^ 63
  pub bulk_region : p.first_bulk_page ≤ p.end_alloc_page
  pub no_holes : p.memory_hole_list ≡ []

-- a page of the pool that is in use
abbrev pub in_pool : Pool → ℕ → Bool
in_pool p q = ltb q p.end_alloc_page && used p q

-- A call has given a run of pages that were not in use, and marked exactly those.
pub record Gives (p : Pool) (n page : ℕ) (p' : Pool) : Type 0 where
  pub fixed : IsFixed p'
  pub fresh : (q : ℕ) → in_range page n q ≡ true → in_pool p q ≡ false
  pub marked : (q : ℕ) → in_pool p' q ≡ (in_pool p q || in_range page n q)

-- the run that a search has found
abbrev Run : Pool → ℕ → ℕ → Type 0
Run p k page =
    (page + suc k ≤ p.end_alloc_page) × ((q : ℕ) → page ≤ q → q < page + suc k → used p q ≡ false)

search_pages-Run :
    (p : Pool) (bulk : Bool) (k page : ℕ)
    → IsFixed p
    → search_pages p bulk (suc k) ≡ some page
    → Run p k page
unfolding search_pages
search_pages-Run p true k page v e =
    ((find_run-le _ _ _ k _ page e).1, λ q a b. find_run-free _ _ _ k _ page q e a b)
search_pages-Run p false k page v e = (
  omega (arith, (find_run-le _ _ _ k _ page e).1, v.bulk_region),
  λ q a b. find_run-free _ _ _ k _ page q e a b,
)

marked-Gives :
    (p p' : Pool) (k page : ℕ)
    → IsFixed p
    → Run p k page
    → p'.alloc_bitmap ≡ map_alloc p.alloc_bitmap page (suc k)
    → p'.end_alloc_page ≡ p.end_alloc_page
    → p'.first_bulk_page ≡ p.first_bulk_page
    → p'.memory_hole_list ≡ p.memory_hole_list
    → Gives p (suc k) page p'
marked-Gives p p' k page v r map end bulk holes = record {
  fixed = record {
    covers = omega (arith, size, end, v.covers);
    small = omega (arith, size, v.small);
    bulk_region = omega (arith, end, bulk, v.bulk_region);
    no_holes = holes ∙ v.no_holes;
  };
  fresh = λ q h. ground (arith, r.1 q, h);
  marked = λ q. elim (dec_lt q p.end_alloc_page) [
    | yes within ↦ ground (
      arith,
      within,
      end,
      r.0,
      ap (λ m. allocated_in_map m q) map,
      allocated_in_map-map_alloc p.alloc_bitmap page (suc k) q
          (omega (arith, r.0, v.covers, v.small)) (omega (arith, within, v.covers)),
    )
    | no outside ↦ ground (arith, outside, end, r.0)
  ];
}
  where
    size : covered p'.alloc_bitmap ≡ covered p.alloc_bitmap
    size = ap covered map ∙ covered-map_alloc p.alloc_bitmap page (suc k)

take_pages-Gives :
    (p : Pool) (bulk : Bool) (k page : ℕ)
    → IsFixed p
    → Run p k page
    → Gives p (suc k) page (take_pages p bulk (suc k) page)
unfolding take_pages
take_pages-Gives p true k page v r =
    marked-Gives p (take_pages p true (suc k) page) k page v r refl refl refl refl
take_pages-Gives p false k page v r =
    marked-Gives p (take_pages p false (suc k) page) k page v r refl refl refl refl

-- what a call comes to: it gives pages, or refuses and leaves the pages as they are
abbrev pub Answers : Pool → ℕ → Option (Option ℕ × Pool) → Type 0
Answers p n none = ⊥
Answers p n (some (none, p')) = IsFixed p' × ((q : ℕ) → in_pool p' q ≡ in_pool p q)
Answers p n (some (some page, p')) = Gives p n page p'

module _ (reserve : Reserve) where
  -- The pool cannot grow.
  increase_memory-fixed :
      (n : ℕ) (p : Pool)
      → IsFixed p
      → increase_memory reserve n p ≡ (0, record p { in_increase_memory = false })
  unfolding increase_memory enter_increase can_increase
  increase_memory-fixed n p v = elim (Bool-cases p.in_increase_memory) [
    | inl busy ↦ rw busy refl
    | inr idle ↦ rw (idle, v.no_holes) refl
  ]

  allocate_loop-stopped :
      (fuel k : ℕ) (p : Pool)
      → IsFixed p
      → search_pages p true (suc k) ≡ none
      → allocate_loop reserve (suc fuel) true (suc k) p
        ≡ some (none, record p { in_increase_memory = false })
  unfolding allocate_loop
  allocate_loop-stopped fuel k p v e = rw (e, allocate_loop, increase_memory-fixed (suc k) p v)

  allocate_loop-bulk :
      (fuel k : ℕ) (p : Pool)
      → IsFixed p
      → Answers p (suc k) (allocate_loop reserve (suc fuel) true (suc k) p)
  allocate_loop-bulk fuel k p v = elim (Option-cases (search_pages p true (suc k))) [
    | inl nothing ↦ subst (Answers p (suc k)) (sym (allocate_loop-stopped fuel k p v nothing)) (
      record {
        covers = v.covers;
        small = v.small;
        bulk_region = v.bulk_region;
        no_holes = v.no_holes;
      },
      λ q. refl,
    )
    | inr (page, e) ↦
        subst (Answers p (suc k)) (sym (allocate_loop-found reserve fuel true (suc k) page p e))
          (take_pages-Gives p true k page v (search_pages-Run p true k page v e))
  ]

  allocate_pages-started :
      (k : ℕ) (p : Pool) (bulk : Bool)
      → is_bulk (suc k) ≡ bulk
      → allocate_pages reserve 2 (suc k) p ≡ allocate_loop reserve 2 bulk (suc k) p
  unfolding allocate_pages
  allocate_pages-started k p bulk e = ap (λ b. allocate_loop reserve 2 b (suc k) p) e

  -- Two rounds are enough.
  pub allocate_pages-Answers :
      (n : ℕ) (p : Pool) → 0 < n → IsFixed p → Answers p n (allocate_pages reserve 2 n p)
  allocate_pages-Answers zero p pos v = absurd (omega arith)
  allocate_pages-Answers (suc k) p pos v = elim (Bool-cases (is_bulk (suc k))) [
    | inl bulk ↦
        subst (Answers p (suc k)) (sym (allocate_pages-started k p true bulk))
          (allocate_loop-bulk 1 k p v)
    | inr few ↦
        subst (Answers p (suc k)) (sym (allocate_pages-started k p false few))
          (elim (Option-cases (search_pages p false (suc k))) [
            | inl nothing ↦
                subst (Answers p (suc k)) (sym (allocate_loop-failover reserve 1 (suc k) p nothing))
                  (allocate_loop-bulk 0 k p v)
            | inr (page, e) ↦
                subst (Answers p (suc k))
                  (sym (allocate_loop-found reserve 1 false (suc k) page p e))
                  (take_pages-Gives p false k page v (search_pages-Run p false k page v e))
          ])
  ]

freed-IsFixed :
    (page n : ℕ) (p p' : Pool)
    → IsFixed p
    → page + n ≤ p.end_alloc_page
    → p'.alloc_bitmap ≡ map_free p.alloc_bitmap page n
    → p'.end_alloc_page ≡ p.end_alloc_page
    → p'.first_bulk_page ≡ p.first_bulk_page
    → p'.memory_hole_list ≡ p.memory_hole_list
    → IsFixed p' × ((q : ℕ) → in_pool p' q ≡ (in_pool p q && not (in_range page n q)))
freed-IsFixed page n p p' v below map end bulk holes = (
  record {
    covers = omega (arith, size, end, v.covers);
    small = omega (arith, size, v.small);
    bulk_region = omega (arith, end, bulk, v.bulk_region);
    no_holes = holes ∙ v.no_holes;
  },
  λ q. elim (dec_lt q p.end_alloc_page) [
    | yes within ↦ ground (
      arith,
      within,
      end,
      ap (λ m. allocated_in_map m q) map,
      allocated_in_map-map_free p.alloc_bitmap page n q (omega (arith, below, v.covers, v.small))
          (omega (arith, within, v.covers)),
    )
    | no outside ↦ ground (arith, outside, end)
  ],
)
  where
    size : covered p'.alloc_bitmap ≡ covered p.alloc_bitmap
    size = ap covered map ∙ covered-map_free p.alloc_bitmap page n

-- Pages in use that are given back.
pub deallocate_pages-frees :
    (page n : ℕ) (p : Pool)
    → 0 < n
    → IsFixed p
    → ((q : ℕ) → in_range page n q ≡ true → in_pool p q ≡ true)
    → IsFixed (deallocate_pages p page n)
      × ((q : ℕ) → in_pool (deallocate_pages p page n) q ≡ (in_pool p q && not (in_range page n q)))
unfolding deallocate_pages
deallocate_pages-frees page n p pos v h = elim (Bool-cases (is_bulk n)) [
  | inl bulk ↦ rw bulk (freed-IsFixed page n p _ v below refl refl refl refl)
  | inr few ↦ rw few (freed-IsFixed page n p _ v below refl refl refl refl)
]
  where
    below : page + n ≤ p.end_alloc_page
    below = ground (arith, h (page + n - 1), pos)
