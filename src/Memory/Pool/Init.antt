-- ===== src/Memory/Pool/Init.antt =====
-- The pool that `init_page_allocator` sets up.
use guestvm_guk.Base.{
  ℕ, zero, suc, ◌+◌, ◌-◌, ◌*◌, ◌/◌, ◌%◌, ◌^◌, ◌≤◌, ◌<◌, ◌≡◌, ◌≢◌, refl, Bool, false, arith, Option,
  replicate, length-replicate,
}
use guestvm_guk.Memory.Bitmap.{covered}
use guestvm_guk.Memory.Bitmap.Ranges.{allocated_in_map-map_free, covered-map_free}
use guestvm_guk.Memory.Holes.{sub_long}
use guestvm_guk.Memory.Pool.{Pool, init_page_allocator}
use guestvm_guk.Memory.Pool.Count.{count_free}
use guestvm_guk.Memory.Pool.Valid.{used, IsValid}

-- A stretch without pages in use has only free ones.
count_free-all :
    (u : ℕ → Bool) (lo k : ℕ)
    → ((q : ℕ) → lo ≤ q → q < lo + k → u q ≡ false)
    → count_free u lo k ≡ k
unfolding count_free
count_free-all u lo zero h = refl
count_free-all u lo (suc k) h = ground (
  arith,
  count_free-all u lo k (λ q a b. h q a (omega arith)),
  h (lo + k) (omega arith) (omega arith),
)

module _ (reservation : ℕ) (small_option : Option ℕ) (min max : ℕ) where
  abbrev start : Pool
  start = init_page_allocator reservation small_option min max

  abbrev first : ℕ
  first = min + reservation / 32768

  -- The bitmap covers the pages of the reservation rounded down to whole pages of bitmap.
  pub covered-init : covered start.alloc_bitmap ≡ reservation / 32768 * 32768
  unfolding init_page_allocator
  covered-init = omega (
    arith,
    covered-map_free (replicate (reservation / 32768 * 4096 / 8) (2 ^ 64 - 1)) first
        (sub_long max first),
    length-replicate (reservation / 32768 * 4096 / 8) (2 ^ 64 - 1),
  )

  -- If Xen's maximal reservation is no multiple of 32768 pages, the bitmap that
  -- `init_page_allocator` sets up has no bit for the last page of the reservation.
  pub bitmap_too_small : reservation % 32768 ≢ 0 → covered start.alloc_bitmap ≤ reservation - 1
  bitmap_too_small odd = omega (arith, covered-init)

  module _ (fits : first ≤ max) (room : max ≤ reservation / 32768 * 32768)
      (small : reservation < 2 ^ 31) where
    used-init : (q : ℕ) → first ≤ q → q < max → used start q ≡ false
    unfolding init_page_allocator
    used-init q a b = ground (
      arith,
      allocated_in_map-map_free (replicate (reservation / 32768 * 4096 / 8) (2 ^ 64 - 1)) first
          (sub_long max first) q,
      length-replicate (reservation / 32768 * 4096 / 8) (2 ^ 64 - 1),
    )

    -- `init_page_allocator` sets up a valid pool in which every page behind the bitmap is free, if
    -- the bitmap covers the pages that the domain has.
    pub init-IsValid : IsValid start × ((q : ℕ) → first ≤ q → q < max → used start q ≡ false)
    unfolding init_page_allocator
    init-IsValid = (
      record {
        covers = omega (arith, covered-init);
        small = omega (arith, covered-init);
        small_region = ground arith;
        bulk_region = ground arith;
        small_hint = omega arith;
        bulk_hint = omega arith;
        small_bound = omega arith;
        passed = λ q a b c. absurd (omega arith);
        counted = omega (
          arith,
          count_free-all (used start) first (max - first) (λ q a b. used-init q a (omega arith)),
        );
      },
      used-init,
    )
