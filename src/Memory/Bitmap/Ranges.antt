-- ===== src/Memory/Bitmap/Ranges.antt =====
-- What `map_alloc` and `map_free` of mm.c do to each page, and to the size of the bitmap.
use guestvm_guk.Base.{
  ℕ, ◌+◌, ◌-◌, ◌*◌, ◌/◌, ◌%◌, ◌^◌, ◌<◌, bit_and, bit_or, Bool, true, false, not, ◌&&◌, ◌||◌, List,
  get_or, length, ltb, leb, ◌==◌, if◌then◌else◌, ◌≡◌, ◌≢◌, ◌∙◌, ap, arith, length-set, test_bit,
  test_bit-bit_or, test_bit-zero, test_bit-bit_and, test_bit-low_mask, test_bit-high_mask,
  ℕ_discrete,
}
use guestvm_guk.Memory.Bitmap.{
  add_long, covered, allocated_in_map, or_word, and_word, bits_below, bits_from, fill_words,
  map_alloc, map_free,
}
use guestvm_guk.Memory.Bitmap.Words.{
  page_bit, allocated_in_map-page_bit, page_bit-or_word, page_bit-and_word, length-fill_words,
  page_bit-fill_words,
}

-- page `p` is one of the `n` pages from `first` on
abbrev pub in_range : ℕ → ℕ → ℕ → Bool
in_range first n p = leb first p && ltb p (first + n)

-- The two masks of a partial word.
test_bit-bits_below : (off i : ℕ) → test_bit (bits_below off) i ≡ ltb i off
test_bit-bits_below off i = test_bit-low_mask off i

test_bit-bits_from : (off i : ℕ) → off < 64 → i < 64 → test_bit (bits_from off) i ≡ leb off i
test_bit-bits_from off i h k = test_bit-high_mask 64 off i (omega arith) ∙ ground arith

test_bit-all : (i : ℕ) → i < 64 → test_bit (2 ^ 64 - 1) i ≡ true
test_bit-all i h = test_bit-low_mask 64 i ∙ ground arith

module _ (map : List ℕ) (first n p : ℕ) (small : first + n < 2 ^ 64) (h : p < covered map) where
  abbrev so : ℕ
  so = first % 64

  abbrev eo : ℕ
  eo = (first + n) % 64

  page_bit-map_alloc_word :
      first / 64 ≡ (first + n) / 64
      → page_bit (or_word map (first / 64) (bit_and (bits_below eo) (bits_from so))) p
        ≡ (page_bit map p || in_range first n p)
  page_bit-map_alloc_word e = ground (
    arith,
    page_bit-or_word map (first / 64) (bit_and (bits_below eo) (bits_from so)) p h,
    test_bit-bit_and (bits_below eo) (bits_from so) (p % 64),
    test_bit-bits_below eo (p % 64),
    test_bit-bits_from so (p % 64),
  )

  page_bit-map_alloc_words :
      first / 64 < (first + n) / 64
      → page_bit
          (or_word
            (fill_words
              ((first + n) / 64 - first / 64 - 1)
              (first / 64 + 1)
              (2 ^ 64 - 1)
              (or_word map (first / 64) (bits_from so)))
            ((first + n) / 64)
            (bits_below eo))
          p
        ≡ (page_bit map p || in_range first n p)
  page_bit-map_alloc_words lt = ground (
    arith,
    page_bit-or_word filled ((first + n) / 64) (bits_below eo) p,
    page_bit-fill_words rounds (first / 64 + 1) (2 ^ 64 - 1) p head,
    page_bit-or_word map (first / 64) (bits_from so) p h,
    length-fill_words rounds (first / 64 + 1) (2 ^ 64 - 1) head,
    length-set map (first / 64) (bit_or (get_or map (first / 64) 0) (bits_from so)),
    test_bit-bits_below eo (p % 64),
    test_bit-bits_from so (p % 64),
    test_bit-all (p % 64),
  )
    where
      rounds : ℕ
      rounds = (first + n) / 64 - first / 64 - 1

      head : List ℕ
      head = or_word map (first / 64) (bits_from so)

      filled : List ℕ
      filled = fill_words rounds (first / 64 + 1) (2 ^ 64 - 1) head

  page_bit-map_free_word :
      first / 64 ≡ (first + n) / 64
      → page_bit (and_word map (first / 64) (bit_or (bits_from eo) (bits_below so))) p
        ≡ (page_bit map p && not (in_range first n p))
  page_bit-map_free_word e = ground (
    arith,
    page_bit-and_word map (first / 64) (bit_or (bits_from eo) (bits_below so)) p h,
    test_bit-bit_or (bits_from eo) (bits_below so) (p % 64),
    test_bit-bits_below so (p % 64),
    test_bit-bits_from eo (p % 64),
  )

  page_bit-map_free_words :
      first / 64 < (first + n) / 64
      → page_bit
          (and_word
            (fill_words
              ((first + n) / 64 - first / 64 - 1)
              (first / 64 + 1)
              0
              (and_word map (first / 64) (bits_below so)))
            ((first + n) / 64)
            (bits_from eo))
          p
        ≡ (page_bit map p && not (in_range first n p))
  page_bit-map_free_words lt = ground (
    arith,
    page_bit-and_word filled ((first + n) / 64) (bits_from eo) p,
    page_bit-fill_words rounds (first / 64 + 1) 0 p head,
    page_bit-and_word map (first / 64) (bits_below so) p h,
    length-fill_words rounds (first / 64 + 1) 0 head,
    length-set map (first / 64) (bit_and (get_or map (first / 64) 0) (bits_below so)),
    test_bit-bits_from eo (p % 64),
    test_bit-bits_below so (p % 64),
    test_bit-zero (p % 64),
  )
    where
      rounds : ℕ
      rounds = (first + n) / 64 - first / 64 - 1

      head : List ℕ
      head = and_word map (first / 64) (bits_below so)

      filled : List ℕ
      filled = fill_words rounds (first / 64 + 1) 0 head

  add_long-small : add_long first n ≡ first + n
  add_long-small = omega arith

  page_bit-map_alloc : page_bit (map_alloc map first n) p ≡ (page_bit map p || in_range first n p)
  unfolding map_alloc
  page_bit-map_alloc = rw add_long-small (elim (ℕ_discrete (first / 64) ((first + n) / 64)) [
    | yes e ↦ rw (test e) (page_bit-map_alloc_word e)
    | no ne ↦ rw (test_ne ne, last ne) (page_bit-map_alloc_words (omega arith))
  ])
    where
      test : first / 64 ≡ (first + n) / 64 → (first / 64 == (first + n) / 64) ≡ true
      test e = ground arith

      test_ne : first / 64 ≢ (first + n) / 64 → (first / 64 == (first + n) / 64) ≡ false
      test_ne e = ground arith

      last :
          first / 64 ≢ (first + n) / 64
          → first / 64 + 1 + ((first + n) / 64 - first / 64 - 1) ≡ (first + n) / 64
      last e = omega arith

  page_bit-map_free :
      page_bit (map_free map first n) p ≡ (page_bit map p && not (in_range first n p))
  unfolding map_free
  page_bit-map_free = rw add_long-small (elim (ℕ_discrete (first / 64) ((first + n) / 64)) [
    | yes e ↦ rw (test e) (page_bit-map_free_word e)
    | no ne ↦ rw (test_ne ne, rounds ne) (page_bit-map_free_words (omega arith))
  ])
    where
      test : first / 64 ≡ (first + n) / 64 → (first / 64 == (first + n) / 64) ≡ true
      test e = ground arith

      test_ne : first / 64 ≢ (first + n) / 64 → (first / 64 == (first + n) / 64) ≡ false
      test_ne e = ground arith

      rounds :
          first / 64 ≢ (first + n) / 64
          → ((first + n) / 64 + 2 ^ 64 - first / 64 - 1) % 2 ^ 64
            ≡ (first + n) / 64 - first / 64 - 1
      rounds e = omega arith

-- `map_alloc` marks exactly the pages of its range as allocated, for a range that does not wrap,
-- and leaves every other page that the bitmap covers as it was.
pub allocated_in_map-map_alloc :
    (map : List ℕ) (first n p : ℕ)
    → first + n < 2 ^ 64
    → p < covered map
    → allocated_in_map (map_alloc map first n) p ≡ (allocated_in_map map p || in_range first n p)
allocated_in_map-map_alloc map first n p small h =
    rw (allocated_in_map-page_bit (map_alloc map first n) p, allocated_in_map-page_bit map p)
      (page_bit-map_alloc map first n p small h)

-- `map_free` marks exactly the pages of its range as free, for a range that does not wrap, and
-- leaves every other page that the bitmap covers as it was.
pub allocated_in_map-map_free :
    (map : List ℕ) (first n p : ℕ)
    → first + n < 2 ^ 64
    → p < covered map
    → allocated_in_map (map_free map first n) p
      ≡ (allocated_in_map map p && not (in_range first n p))
allocated_in_map-map_free map first n p small h =
    rw (allocated_in_map-page_bit (map_free map first n) p, allocated_in_map-page_bit map p)
      (page_bit-map_free map first n p small h)

length_if :
    (b : Bool) (xs ys : List ℕ) (n : ℕ)
    → length xs ≡ n
    → length ys ≡ n
    → length (if b then xs else ys) ≡ n
length_if true xs ys n p q = p
length_if false xs ys n p q = q

pub covered-map_alloc : (map : List ℕ) (first n : ℕ) → covered (map_alloc map first n) ≡ covered map
unfolding map_alloc
covered-map_alloc map first n =
    ap (λ (k : ℕ). k * 64)
      (length_if _ _ _ _ (length-set _ _ _)
        (length-set _ _ _ ∙ length-fill_words _ _ _ _ ∙ length-set _ _ _))

pub covered-map_free : (map : List ℕ) (first n : ℕ) → covered (map_free map first n) ≡ covered map
unfolding map_free
covered-map_free map first n =
    ap (λ (k : ℕ). k * 64)
      (length_if _ _ _ _ (length-set _ _ _)
        (length-set _ _ _ ∙ length-fill_words _ _ _ _ ∙ length-set _ _ _))
