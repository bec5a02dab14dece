-- ===== src/Memory/Bitmap.antt =====
-- The allocation bitmap of mm.c and the macros of include/bitmap.h: one bit for each page, 64 pages to
-- an `unsigned long`. A set bit is an allocated page or a hole. The array is a list of words. A read
-- outside it gives 0 and a write outside it is lost; the theorems keep to pages that it covers.
pub mod Words
pub mod Ranges
mod Tests
use guestvm_guk.Base.{
  ℕ, zero, suc, ◌+◌, ◌-◌, ◌*◌, ◌/◌, ◌%◌, ◌^◌, bit_and, bit_or, Bool, not, List, get_or, set, length,
  ◌==◌, if◌then◌else◌,
}

-- `ENTRIES_PER_MAPWORD`, the bits of an `unsigned long`
abbrev pub entries_per_mapword : ℕ
entries_per_mapword = 64

-- `unsigned long` addition
abbrev pub add_long : ℕ → ℕ → ℕ
add_long a b = (a + b) % 2 ^ 64

-- the pages that a bitmap covers
abbrev pub covered : List ℕ → ℕ
covered map = length map * entries_per_mapword

unfoldable pub allocated_in_map : List ℕ → ℕ → Bool
allocated_in_map map s =
    not (bit_and (get_or map (s / entries_per_mapword) 0) (2 ^ (s % entries_per_mapword)) == 0)

-- `map[idx] |= mask` and `map[idx] &= mask`
abbrev pub or_word : List ℕ → ℕ → ℕ → List ℕ
or_word map idx mask = set map idx (bit_or (get_or map idx 0) mask)

abbrev pub and_word : List ℕ → ℕ → ℕ → List ℕ
and_word map idx mask = set map idx (bit_and (get_or map idx 0) mask)

-- `(1UL << off) - 1` and `-(1UL << off)`, at `off < 64`
abbrev pub bits_below : ℕ → ℕ
bits_below off = 2 ^ off - 1

abbrev pub bits_from : ℕ → ℕ
bits_from off = 2 ^ 64 - 2 ^ off

-- `map[idx] = word` for `count` indices from `idx` on
unfoldable pub fill_words : ℕ → ℕ → ℕ → List ℕ → List ℕ
fill_words zero idx word map = map
fill_words (suc count) idx word map = fill_words count (idx + 1) word (set map idx word)

-- The loop `while (++curr_idx < end_idx)` makes `end_idx - curr_idx - 1` rounds and leaves `curr_idx`
-- one past the last word that it filled.
unfoldable pub map_alloc : List ℕ → ℕ → ℕ → List ℕ
map_alloc map first_page nr_pages =
    let curr_idx = first_page / entries_per_mapword in
    let start_off = first_page % entries_per_mapword in
    let end_idx = add_long first_page nr_pages / entries_per_mapword in
    let end_off = add_long first_page nr_pages % entries_per_mapword in
    let rounds = end_idx - curr_idx - 1 in
    if curr_idx == end_idx
    then or_word map curr_idx (bit_and (bits_below end_off) (bits_from start_off))
    else or_word
        (fill_words rounds (curr_idx + 1) (2 ^ 64 - 1) (or_word map curr_idx (bits_from start_off)))
        (curr_idx + 1 + rounds) (bits_below end_off)

-- The loop `while (++curr_idx != end_idx)` runs until `curr_idx` meets `end_idx`, round the end of the
-- address space if it has to.
unfoldable pub map_free : List ℕ → ℕ → ℕ → List ℕ
map_free map first_page nr_pages =
    let curr_idx = first_page / entries_per_mapword in
    let start_off = first_page % entries_per_mapword in
    let end_idx = add_long first_page nr_pages / entries_per_mapword in
    let end_off = add_long first_page nr_pages % entries_per_mapword in
    let rounds = (end_idx + 2 ^ 64 - curr_idx - 1) % 2 ^ 64 in
    if curr_idx == end_idx
    then and_word map curr_idx (bit_or (bits_from end_off) (bits_below start_off))
    else and_word
        (fill_words rounds (curr_idx + 1) 0 (and_word map curr_idx (bits_below start_off))) end_idx
        (bits_from end_off)
