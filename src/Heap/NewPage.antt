-- ===== src/Heap/NewPage.antt =====
-- A block from a new page: its size at the top of the machine word, and its way back.
use guestvm_guk.Base.{
  ℕ, ◌+◌, ◌-◌, ◌*◌, ◌/◌, ◌%◌, ◌^◌, ◌≤◌, ◌<◌, ◌≡◌, refl, ◌≢◌, sym, subst, ◌∙◌, ap, not, Option, none,
  some, List, [], ◌∷◌, leb, ◌==◌, arith, if-true, if-false, dec_lt, leb-true, leb-false,
}
use guestvm_guk.Heap.{
  Block, Heap, header_size, header_align, page_size, same_page, keep, maybe_split, find_fit, merge,
  take_block, put_merged, align_up, padded_size, hand_out, xmalloc_new_page, xmalloc_small, xmalloc,
  free_block, xfree,
}

padded_size-wraps :
    (asize : ℕ) → 2 ^ 64 ≤ asize + header_size → asize < 2 ^ 64 → padded_size asize ≤ header_size
unfolding padded_size align_up
padded_size-wraps asize low high = omega arith

-- the two halves of a split
abbrev first_part : ℕ → ℕ → Block
first_part hdr size = record { addr = hdr; size = size }

abbrev second_part : ℕ → ℕ → ℕ → Block
second_part hdr size block = record { addr = hdr + size; size = block - size }

maybe_split-splits :
    (hdr size block : ℕ) (free : List Block)
    → size + 2 * header_size ≤ block
    → maybe_split hdr size block free ≡ (first_part hdr size, second_part hdr size block ∷ free)
unfolding maybe_split
maybe_split-splits hdr size block free room =
    if-true _ _ _ (leb-true (2 * header_size) (block - size) (omega arith))

maybe_split-whole :
    (hdr size block : ℕ) (free : List Block)
    → block < size + 2 * header_size
    → maybe_split hdr size block free ≡ (first_part hdr block, free)
unfolding maybe_split
maybe_split-whole hdr size block free tight =
    if-false _ _ _ (leb-false (2 * header_size) (block - size) (omega arith))

-- what `guk_xmalloc` does when no free block will do
xmalloc-new_page :
    (pages : ℕ → Option ℕ) (asize page : ℕ) (h : Heap)
    → padded_size asize < page_size
    → find_fit (padded_size asize) h.freelist ≡ none
    → pages 1 ≡ some page
    → xmalloc pages asize h ≡ xmalloc_new_page (some page) (padded_size asize) h
unfolding xmalloc xmalloc_small
xmalloc-new_page pages asize page h small no_fit given =
    if-false (leb page_size (padded_size asize)) _ _ (ground arith) ∙ rw (no_fit, given) refl

-- the page allocator has given a page
abbrev with_page : ℕ → Heap → Heap
with_page page h = record h { taken = first_part page page_size ∷ h.taken }

-- the first block of a new page, of at most `size` bytes
abbrev pub NewBlock : ℕ → ℕ → Heap → Option ℕ × Heap → Type 0
NewBlock page size h r =
    (r.0 ≡ some (page + header_size))
    × ((b : Block) × (r.1.handed_out ≡ b ∷ h.handed_out) × (b.addr ≡ page) × (b.size ≤ size))

-- For the last 7 sizes of a machine word `guk_xmalloc` hands out the first block of a new page,
-- which has no room behind its header, if no free block will do and the page allocator gives a
-- page.
pub xmalloc-overflow :
    (pages : ℕ → Option ℕ) (asize page : ℕ) (h : Heap)
    → 2 ^ 64 ≤ asize + 7
    → asize < 2 ^ 64
    → find_fit (padded_size asize) h.freelist ≡ none
    → pages 1 ≡ some page
    → NewBlock page header_size h (xmalloc pages asize h)
unfolding xmalloc_new_page maybe_split
xmalloc-overflow pages asize page h low high no_fit given =
    let tiny = padded_size-wraps asize (omega (arith, low)) high in
    subst (NewBlock page header_size h)
      (sym (xmalloc-new_page pages asize page h (omega arith) no_fit given))
      (subst (λ r. NewBlock page header_size h (hand_out r (with_page page h)))
        (sym (maybe_split-splits page (padded_size asize) page_size h.freelist (omega arith)))
        (refl, (first_part page (padded_size asize), refl, refl, tiny)))

-- All blocks of the list lie on other pages.
abbrev pub ElseWhere : ℕ → List Block → Type 0
ElseWhere page [] = Unit
ElseWhere page (i ∷ free) = ((i.addr / page_size) ≢ (page / page_size)) × ElseWhere page free

merge-ElseWhere :
    (page size : ℕ) (free : List Block)
    → ElseWhere page free
    → merge (record { addr = page; size = size }) free ≡ (record { addr = page; size = size }, free)
unfolding merge
merge-ElseWhere page size [] away = refl
merge-ElseWhere page size (i ∷ free) away =
    if-true (not (same_page i (record { addr = page; size = size }))) _ _ (ground (arith, away.0))
    ∙ ap (keep i) (merge-ElseWhere page size free away.1)

-- the page has been given back
abbrev pub gave_page : ℕ → Heap → Heap
gave_page page h = record h {
  taken = record { addr = page; size = page_size } ∷ h.taken;
  given = record { addr = page; size = page_size } ∷ h.given;
}

-- The last block handed out, at the start of a page, is freed.
xfree-hand_out :
    (b : Block) (free : List Block) (h : Heap)
    → b.addr % page_size ≡ 0
    → xfree (b.addr + header_size) (hand_out (b, free) h).1
      ≡ free_block (hand_out (b, free) h).1 (some (b, h.handed_out))
unfolding xfree take_block
xfree-hand_out b free h aligned =
    if-false (b.addr + header_size == 0) _ _ (ground arith)
    ∙ if-false
        (not (
          ((b.addr + header_size) / page_size)
          == ((b.addr + header_size - header_size) / page_size)))
        _ _ (ground arith)
    ∙ ap (free_block (hand_out (b, free) h).1)
        (if-true (b.addr == (b.addr + header_size - header_size)) _ _ (ground arith))

free-whole :
    (page : ℕ) (h : Heap)
    → page % page_size ≡ 0
    → xfree
        (page + header_size)
        (hand_out (first_part page page_size, h.freelist) (with_page page h)).1
      ≡ some (gave_page page h)
unfolding free_block
free-whole page h aligned =
    xfree-hand_out (first_part page page_size) h.freelist (with_page page h) aligned

merge-parts :
    (page size : ℕ) (free : List Block)
    → size + 2 * header_size ≤ page_size
    → 0 < size
    → page % page_size ≡ 0
    → ElseWhere page free
    → merge (first_part page size) (second_part page size page_size ∷ free)
      ≡ (first_part page page_size, free)
unfolding merge
merge-parts page size free room pos aligned away =
    if-false (not (same_page (second_part page size page_size) (first_part page size))) _ _
      (ground arith)
    ∙ if-false (page + size + (page_size - size) == page) _ _ (ground arith)
    ∙ if-true (page + size == page + size) _ _ (ground arith)
    ∙ merge-ElseWhere page (size + (page_size - size)) free away
    ∙ ap (λ n. (first_part page n, free)) (omega arith)

free-split :
    (page size : ℕ) (h : Heap)
    → size + 2 * header_size ≤ page_size
    → 0 < size
    → page % page_size ≡ 0
    → ElseWhere page h.freelist
    → xfree
        (page + header_size)
        (hand_out
          (first_part page size, second_part page size page_size ∷ h.freelist)
          (with_page page h)).1
      ≡ some (gave_page page h)
unfolding free_block put_merged
free-split page size h room pos aligned away =
    xfree-hand_out (first_part page size) (second_part page size page_size ∷ h.freelist)
      (with_page page h) aligned
    ∙ if-false (leb page_size size) _ _ (leb-false page_size size (omega arith))
    ∙ ap
        (put_merged
          (record (with_page page h) { freelist = second_part page size page_size ∷ h.freelist }))
        (merge-parts page size h.freelist room pos aligned away)
    ∙ if-true (page % page_size == 0) _ _ (ground arith)

-- A block that `guk_xmalloc` cuts from a new page, since no free block will do, freed at once by
-- the address that the caller got, gives the page back and leaves the free list and the blocks
-- handed out as they were, for at most a page less 32 bytes, if the page starts at a page boundary
-- and no free block lies on it before.
pub xfree-xmalloc :
    (pages : ℕ → Option ℕ) (asize page : ℕ) (h : Heap)
    → asize + header_size + header_align ≤ page_size
    → find_fit (padded_size asize) h.freelist ≡ none
    → pages 1 ≡ some page
    → page % page_size ≡ 0
    → ElseWhere page h.freelist
    → xfree (page + header_size) (xmalloc pages asize h).1 ≡ some (gave_page page h)
unfolding xmalloc_new_page padded_size align_up
xfree-xmalloc pages asize page h small no_fit given aligned away =
    ap (λ r. xfree (page + header_size) r.1)
      (xmalloc-new_page pages asize page h (omega arith) no_fit given)
    ∙ (elim (dec_lt page_size (size + 2 * header_size)) [
      | yes tight ↦
          ap (λ r. xfree (page + header_size) (hand_out r (with_page page h)).1)
            (maybe_split-whole page size page_size h.freelist tight)
          ∙ free-whole page h aligned
      | no loose ↦
          ap (λ r. xfree (page + header_size) (hand_out r (with_page page h)).1)
            (maybe_split-splits page size page_size h.freelist (omega arith))
          ∙ free-split page size h (omega arith) (omega arith) aligned away
    ])
  where
    size : ℕ
    size = padded_size asize
