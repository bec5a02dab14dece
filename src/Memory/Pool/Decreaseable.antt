-- ===== src/Memory/Pool/Decreaseable.antt =====
-- `guk_decreaseable_page_pool` counts the free pages of the bulk region.
use guestvm_guk.Base.{
  ℕ, zero, suc, ◌+◌, ◌-◌, ◌^◌, ◌≤◌, ◌<◌, ◌≡◌, refl, ap, ap₂, ◌∙◌, true, arith, List, if◌then◌else◌,
  dec_lt,
}
use Prim.Native.Nat.add
use guestvm_guk.Memory.Bitmap.{allocated_in_map}
use guestvm_guk.Memory.Holes.{sub_long}
use guestvm_guk.Memory.Pool.{Pool, free_down, decreaseable_loop, decreaseable_page_pool}
use guestvm_guk.Memory.Pool.Count.{count_free}
use guestvm_guk.Memory.Pool.Valid.{used, IsValid}

module _ (map : List ℕ) (fb : ℕ) (high : 2 ≤ fb) where
  -- the free pages of the bulk region up to `page`
  abbrev upto : ℕ → ℕ
  upto page = count_free (allocated_in_map map) fb (page + 1 - fb)

  upto-step :
      (page : ℕ)
      → fb ≤ page
      → upto page ≡ upto (page - 1) + (if allocated_in_map map page then 0 else 1)
  unfolding count_free
  upto-step page h =
      ap (count_free (allocated_in_map map) fb) one_more
      ∙ ap₂
          (λ (k q : ℕ).
            count_free (allocated_in_map map) fb k + (if allocated_in_map map q then 0 else 1))
          before last
    where
      one_more : page + 1 - fb ≡ suc (page - fb)
      one_more = omega arith

      before : page - fb ≡ page - 1 + 1 - fb
      before = omega arith

      last : fb + (page - fb) ≡ page
      last = omega arith

  sub_long-one : (q : ℕ) → 0 < q → q < 2 ^ 63 → sub_long q 1 ≡ q - 1
  sub_long-one q p r = omega arith

  upto-empty : (page : ℕ) → page < fb → upto page ≡ 0
  unfolding count_free
  upto-empty page h = ap (count_free (allocated_in_map map) fb) none_left
    where
      none_left : page + 1 - fb ≡ 0
      none_left = omega arith

  -- The inner loop counts what it passes, and stops in front of the region or at a page in use.
  free_down-lem :
      (rounds page n : ℕ)
      → page < 2 ^ 63
      → fb ≤ page + 1
      → page + 1 - fb ≤ rounds
      → let (page', n') = free_down rounds map fb page n in
        (n' + upto page' ≡ n + upto page)
        × (page' ≤ page)
        × (fb ≤ page' + 1)
        × (fb ≤ page' → allocated_in_map map page' ≡ true)
  unfolding free_down
  free_down-lem zero page n a b c = (refl, omega arith, b, λ h. absurd (omega arith))
  free_down-lem (suc rounds) page n a b c = elim (dec_lt page fb) [
    | yes below ↦ ground arith
    | no inside ↦ ground (
      arith,
      upto-step page (omega arith),
      sub_long-one page,
      free_down-lem rounds (sub_long page 1) (n + 1),
    )
  ]

  -- What a round has counted when the next starts below the page where the inner loop stopped.
  behind :
      (page' n' total : ℕ)
      → page' < 2 ^ 63
      → fb ≤ page' + 1
      → (fb ≤ page' → allocated_in_map map page' ≡ true)
      → total ≡ n' + upto (sub_long page' 1)
      → total ≡ n' + upto page'
  behind page' n' total h k t e = elim (dec_lt page' fb) [
    | yes below ↦
        omega (arith, e, upto-empty page' below, upto-empty (sub_long page' 1) (omega arith))
    | no in_region ↦ ground (arith, e, upto-step page' (omega arith), sub_long-one page')
  ]

  decreaseable_loop-lem :
      (rounds page n : ℕ)
      → page < 2 ^ 63
      → fb ≤ page + 2
      → page + 1 - fb ≤ rounds
      → decreaseable_loop rounds map fb page n ≡ n + upto page
  unfolding decreaseable_loop
  decreaseable_loop-lem zero page n a b c = ground (arith, upto-empty page)
  decreaseable_loop-lem (suc rounds) page n a b c = elim (dec_lt page fb) [
    | yes below ↦ ground (arith, upto-empty page)
    | no inside ↦ ground (
      arith,
      upto-step page (omega arith),
      sub_long-one page,
      decreaseable_loop-lem rounds (sub_long page 1) n,
      behind (free_down (suc rounds) map fb page n).0 (free_down (suc rounds) map fb page n).1 (
          decreaseable_loop rounds map fb (sub_long (free_down (suc rounds) map fb page n).0 1)
            (free_down (suc rounds) map fb page n).1),
      decreaseable_loop-lem rounds (sub_long (free_down (suc rounds) map fb page n).0 1)
          (free_down (suc rounds) map fb page n).1,
      free_down-lem (suc rounds) page n,
    )
  ]

-- `guk_decreaseable_page_pool` returns the number of free pages in the bulk region of a valid pool
-- whose bulk region does not start before page 2.
pub decreaseable_page_pool-count :
    (p : Pool)
    → IsValid p
    → 2 ≤ p.first_bulk_page
    → decreaseable_page_pool p
      ≡ count_free (used p) p.first_bulk_page (p.end_alloc_page - p.first_bulk_page)
unfolding decreaseable_page_pool
decreaseable_page_pool-count p v high =
    decreaseable_loop-lem p.alloc_bitmap p.first_bulk_page high
      (p.end_alloc_page - p.first_bulk_page) (sub_long p.end_alloc_page 1) 0 (omega arith)
      (omega arith) (omega arith)
    ∙ add.zero _
    ∙ ap (count_free (used p) p.first_bulk_page) (omega arith)
