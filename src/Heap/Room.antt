-- ===== src/Heap/Room.antt =====
-- What the caller of `guk_xmalloc` gets.
use guestvm_guk.Base.{
  ℕ, ◌+◌, ◌*◌, ◌^◌, ◌≤◌, ◌≡◌, refl, sym, subst, Option, none, some, List, ◌∷◌, leb, arith, if-true,
  if-false, Bool-cases, inl, inr,
}
use guestvm_guk.Heap.{
  Block, Heap, header_size, page_size, maybe_split, align_up, padded_size, xmalloc_new_page,
  xmalloc_whole_pages, xmalloc_small, xmalloc,
}
use guestvm_guk.Heap.Conserve.{Fitting, Fitting-find_fit}

-- The caller gets an address behind the header of a block of at least `size` bytes.
abbrev pub HandsOut : ℕ → Option ℕ × Heap → Type 0
HandsOut size (none, h) = Unit
HandsOut size (some p, h) =
    (b : Block) × (rest : List Block) × (h.handed_out ≡ b ∷ rest)
    × (p ≡ b.addr + header_size)
    × (size ≤ b.size)

size-maybe_split :
    (hdr size block : ℕ) (free : List Block)
    → size ≤ block
    → size ≤ ((maybe_split hdr size block free).0).size
unfolding maybe_split
size-maybe_split hdr size block free h = ground arith

padded_size-room :
    (asize : ℕ) → asize + 2 * page_size ≤ 2 ^ 64 → asize + header_size ≤ padded_size asize
unfolding padded_size align_up
padded_size-room asize h = omega arith

padded_size-top :
    (asize : ℕ) → asize + 2 * page_size ≤ 2 ^ 64 → padded_size asize + page_size ≤ 2 ^ 64
unfolding padded_size align_up
padded_size-top asize h = omega arith

align_up-page : (size : ℕ) → size + page_size ≤ 2 ^ 64 → size ≤ align_up size page_size
unfolding align_up
align_up-page size h = omega arith

xmalloc_new_page-HandsOut :
    (page : Option ℕ) (size : ℕ) (h : Heap)
    → size ≤ page_size
    → HandsOut size (xmalloc_new_page page size h)
unfolding xmalloc_new_page
xmalloc_new_page-HandsOut none size h small = tt
xmalloc_new_page-HandsOut (some page) size h small = (
  (maybe_split page size page_size h.freelist).0,
  h.handed_out,
  refl,
  refl,
  size-maybe_split page size page_size h.freelist small,
)

xmalloc_whole_pages-HandsOut :
    (page : Option ℕ) (size : ℕ) (h : Heap)
    → size + page_size ≤ 2 ^ 64
    → HandsOut size (xmalloc_whole_pages page size h)
unfolding xmalloc_whole_pages
xmalloc_whole_pages-HandsOut none size h fits = tt
xmalloc_whole_pages-HandsOut (some page) size h fits = (
  record { addr = page; size = align_up size page_size },
  h.handed_out,
  refl,
  refl,
  align_up-page size fits,
)

xmalloc_small-HandsOut :
    (page : Option ℕ) (size : ℕ) (h : Heap) (r : Option (Block × List Block))
    → size ≤ page_size
    → Fitting size r
    → HandsOut size (xmalloc_small page size h r)
unfolding xmalloc_small
xmalloc_small-HandsOut page size h none small fits = xmalloc_new_page-HandsOut page size h small
xmalloc_small-HandsOut page size h (some (i, free)) small fits = (
  (maybe_split i.addr size i.size free).0,
  h.handed_out,
  refl,
  refl,
  size-maybe_split i.addr size i.size free fits,
)

xmalloc-HandsOut-padded :
    (pages : ℕ → Option ℕ) (asize : ℕ) (h : Heap)
    → asize + 2 * page_size ≤ 2 ^ 64
    → HandsOut (padded_size asize) (xmalloc pages asize h)
unfolding xmalloc
xmalloc-HandsOut-padded pages asize h fits = elim (Bool-cases (leb page_size (padded_size asize))) [
  | inl large ↦
      subst (HandsOut (padded_size asize)) (sym (if-true _ _ _ large))
        (xmalloc_whole_pages-HandsOut _ _ h (padded_size-top asize fits))
  | inr small ↦ subst (HandsOut (padded_size asize)) (sym (if-false _ _ _ small)) (
      xmalloc_small-HandsOut (pages 1) _ h _ (ground arith)
        (Fitting-find_fit (padded_size asize) h.freelist))
]

HandsOut-le :
    (small size : ℕ) (r : Option ℕ × Heap) → small ≤ size → HandsOut size r → HandsOut small r
HandsOut-le small size (none, h) le v = tt
HandsOut-le small size (some p, h) le (b, rest, used, at, fits) = (b, rest, used, at, omega arith)

-- If `guk_xmalloc` gives an address, it is that behind the header of a block newly handed out which
-- has room for the header and the bytes asked for, if these are at least two pages less than the
-- address space.
pub xmalloc-HandsOut :
    (pages : ℕ → Option ℕ) (asize : ℕ) (h : Heap)
    → asize + 2 * page_size ≤ 2 ^ 64
    → HandsOut (asize + header_size) (xmalloc pages asize h)
xmalloc-HandsOut pages asize h fits =
    HandsOut-le _ (padded_size asize) _ (padded_size-room asize fits)
      (xmalloc-HandsOut-padded pages asize h fits)
