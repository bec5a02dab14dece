-- ===== src/Memory/Bitmap/Words.antt =====
-- The bits of the words of the bitmap.
use guestvm_guk.Base.{
  ℕ, zero, suc, ◌+◌, ◌/◌, ◌%◌, ◌<◌, bit_and, bit_or, Bool, not, ◌&&◌, ◌||◌, List, get_or, set,
  length, ltb, leb, ◌==◌, if◌then◌else◌, ◌≡◌, ◌∙◌, refl, arith, length-set, get_or-set, test_bit,
  test_bit-bit_or, test_bit-bit_and, bit_and-pow,
}
use guestvm_guk.Memory.Bitmap.{covered, allocated_in_map, or_word, and_word, fill_words}

-- the state of page `p`, by its word and its bit
abbrev pub page_bit : List ℕ → ℕ → Bool
page_bit map p = test_bit (get_or map (p / 64) 0) (p % 64)

pub allocated_in_map-page_bit : (map : List ℕ) (p : ℕ) → allocated_in_map map p ≡ page_bit map p
unfolding allocated_in_map
allocated_in_map-page_bit map p = bit_and-pow (get_or map (p / 64) 0) (p % 64)

-- The word of a covered page is in the array.
covered-lt : (map : List ℕ) (p : ℕ) → p < covered map → p / 64 < length map
covered-lt map p h = omega arith

page_bit-set :
    (map : List ℕ) (idx word p : ℕ)
    → p < covered map
    → page_bit (set map idx word) p
      ≡ (if p / 64 == idx then test_bit word (p % 64) else page_bit map p)
page_bit-set map idx word p h =
    ground (arith, get_or-set map idx (p / 64) word 0 (covered-lt map p h))

pub page_bit-or_word :
    (map : List ℕ) (idx mask p : ℕ)
    → p < covered map
    → page_bit (or_word map idx mask) p
      ≡ (page_bit map p || (p / 64 == idx && test_bit mask (p % 64)))
page_bit-or_word map idx mask p h = ground (
  arith,
  page_bit-set map idx (bit_or (get_or map idx 0) mask) p h,
  test_bit-bit_or (get_or map idx 0) mask (p % 64),
)

pub page_bit-and_word :
    (map : List ℕ) (idx mask p : ℕ)
    → p < covered map
    → page_bit (and_word map idx mask) p
      ≡ (page_bit map p && (not (p / 64 == idx) || test_bit mask (p % 64)))
page_bit-and_word map idx mask p h = ground (
  arith,
  page_bit-set map idx (bit_and (get_or map idx 0) mask) p h,
  test_bit-bit_and (get_or map idx 0) mask (p % 64),
)

pub length-fill_words :
    (n idx word : ℕ) (map : List ℕ) → length (fill_words n idx word map) ≡ length map
unfolding fill_words
length-fill_words zero idx word map = refl
length-fill_words (suc n) idx word map =
    length-fill_words n (idx + 1) word (set map idx word) ∙ length-set map idx word

pub page_bit-fill_words :
    (n idx word p : ℕ) (map : List ℕ)
    → p < covered map
    → page_bit (fill_words n idx word map) p ≡ (
        if leb idx (p / 64) && ltb (p / 64) (idx + n)
        then test_bit word (p % 64)
        else page_bit map p)
unfolding fill_words
page_bit-fill_words zero idx word p map h = ground arith
page_bit-fill_words (suc n) idx word p map h = ground (
  arith,
  page_bit-fill_words n (idx + 1) word p (set map idx word),
  page_bit-set map idx word p h,
  length-set map idx word,
)
