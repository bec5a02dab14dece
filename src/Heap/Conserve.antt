-- ===== src/Heap/Conserve.antt =====
-- Which blocks the bytes of the heap's pages are in, under `guk_xmalloc` and `guk_xfree`.
use guestvm_guk.Base.{
  ℕ, ◌+◌, ◌-◌, ◌/◌, ◌%◌, ◌≤◌, ◌≡◌, sym, subst, ◌∙◌, not, Option, none, some, List, [], ◌∷◌, ltb,
  leb, ◌==◌, if◌then◌else◌, arith, if-true, if-false, Bool-cases, inl, inr,
}
use guestvm_guk.Heap.{
  Block, Heap, header_size, page_size, find_fit, merge, padded_size, skip, xmalloc_new_page,
  xmalloc_whole_pages, xmalloc_small, xmalloc, put_merged, free_block, xfree,
}
use guestvm_guk.Heap.Coverings.{
  covers, coverings, coverings-merge, coverings-maybe_split, FoundCoverings, coverings-find_fit,
  coverings-take_block,
}

-- For every byte, the free blocks, the blocks handed out and the pages given back that it is in are as
-- many as the pages got that it is in.
abbrev pub IsBalanced : Heap → Type 0
IsBalanced h =
    (x : ℕ)
    → coverings x h.freelist + coverings x h.handed_out + coverings x h.given ≡ coverings x h.taken

xmalloc_new_page-IsBalanced :
    (page : Option ℕ) (size : ℕ) (h : Heap)
    → size ≤ page_size
    → IsBalanced h
    → IsBalanced (xmalloc_new_page page size h).1
unfolding xmalloc_new_page coverings
xmalloc_new_page-IsBalanced none size h small v x = v x
xmalloc_new_page-IsBalanced (some page) size h small v x =
    ground (arith, v x, coverings-maybe_split x page size page_size h.freelist)

xmalloc_whole_pages-IsBalanced :
    (page : Option ℕ) (size : ℕ) (h : Heap)
    → IsBalanced h
    → IsBalanced (xmalloc_whole_pages page size h).1
unfolding xmalloc_whole_pages coverings
xmalloc_whole_pages-IsBalanced none size h v x = v x
xmalloc_whole_pages-IsBalanced (some page) size h v x = ground (arith, v x)

-- the walk has found a block that is large enough
abbrev pub Fitting : ℕ → Option (Block × List Block) → Type 0
Fitting size none = Unit
Fitting size (some (b, rest)) = size ≤ b.size

Fitting-skip :
    (size : ℕ) (i : Block) (r : Option (Block × List Block))
    → Fitting size r
    → Fitting size (skip i r)
Fitting-skip size i none h = h
Fitting-skip size i (some (b, rest)) h = h

pub Fitting-find_fit : (size : ℕ) (free : List Block) → Fitting size (find_fit size free)
unfolding find_fit
Fitting-find_fit size [] = tt
Fitting-find_fit size (i ∷ free) = elim (Bool-cases (ltb i.size size)) [
  | inl small ↦
      subst (Fitting size) (sym (if-true _ _ _ small))
        (Fitting-skip size i _ (Fitting-find_fit size free))
  | inr fits ↦ subst (Fitting size) (sym (if-false _ _ _ fits)) (ground arith)
]

xmalloc_small-IsBalanced :
    (page : Option ℕ) (size : ℕ) (h : Heap) (r : Option (Block × List Block))
    → size ≤ page_size
    → ((x : ℕ) → FoundCoverings x h.freelist r)
    → Fitting size r
    → IsBalanced h
    → IsBalanced (xmalloc_small page size h r).1
unfolding xmalloc_small coverings
xmalloc_small-IsBalanced page size h none small found fits v =
    xmalloc_new_page-IsBalanced page size h small v
xmalloc_small-IsBalanced page size h (some (i, free)) small found fits v =
    λ x. ground (arith, v x, found x, coverings-maybe_split x i.addr size i.size free)

-- `guk_xmalloc` keeps the heap in balance, at every size and whatever the page allocator answers.
pub xmalloc-IsBalanced :
    (pages : ℕ → Option ℕ) (asize : ℕ) (h : Heap)
    → IsBalanced h
    → IsBalanced (xmalloc pages asize h).1
unfolding xmalloc
xmalloc-IsBalanced pages asize h v = elim (Bool-cases (leb page_size (padded_size asize))) [
  | inl large ↦
      subst (λ (r : Option ℕ × Heap). IsBalanced r.1) (sym (if-true _ _ _ large))
        (xmalloc_whole_pages-IsBalanced _ _ h v)
  | inr small ↦
      subst (λ (r : Option ℕ × Heap). IsBalanced r.1) (sym (if-false _ _ _ small))
        (xmalloc_small-IsBalanced (pages 1) (padded_size asize) h _ (ground arith)
          (λ x. coverings-find_fit x (padded_size asize) h.freelist)
          (Fitting-find_fit (padded_size asize) h.freelist) v)
]

-- a result of `guk_xfree` that is in balance, if it returns
abbrev Balanced : Option Heap → Type 0
Balanced none = Unit
Balanced (some h) = IsBalanced h

-- the same with a block between the list of those handed out and the free list
abbrev IsBalancedWith : Heap → Block → List Block → Type 0
IsBalancedWith h hdr free =
    (x : ℕ)
    → (if covers hdr x then 1 else 0)
        + coverings x free
        + coverings x h.handed_out
        + coverings x h.given
      ≡ coverings x h.taken

put_merged-Balanced :
    (h : Heap) (hdr : Block) (free : List Block)
    → IsBalancedWith h hdr free
    → Balanced (put_merged h (hdr, free))
unfolding put_merged coverings
put_merged-Balanced h hdr free v = elim (Bool-cases (hdr.size == page_size)) [
  | inl whole ↦ elim (Bool-cases (hdr.addr % page_size == 0)) [
    | inl aligned ↦
        subst Balanced (sym (if-true _ _ _ whole ∙ if-true _ _ _ aligned))
          (λ x. ground (arith, v x))
    | inr crooked ↦ subst Balanced (sym (if-true _ _ _ whole ∙ if-false _ _ _ crooked)) tt
  ]
  | inr part ↦ subst Balanced (sym (if-false _ _ _ part)) (λ x. ground (arith, v x))
]

free_block-Balanced :
    (h : Heap) (r : Option (Block × List Block))
    → ((x : ℕ) → FoundCoverings x h.handed_out r)
    → IsBalanced h
    → Balanced (free_block h r)
unfolding free_block coverings
free_block-Balanced h none found v = tt
free_block-Balanced h (some (hdr, rest)) found v = elim (Bool-cases (leb page_size hdr.size)) [
  | inl large ↦ subst Balanced (sym (if-true _ _ _ large)) (λ x. ground (arith, v x, found x))
  | inr small ↦ subst Balanced (sym (if-false _ _ _ small)) (
      put_merged-Balanced (record h { handed_out = rest }) (merge hdr h.freelist).0
        (merge hdr h.freelist).1
        (λ x. ground (arith, v x, found x, coverings-merge x hdr h.freelist)))
]

-- Where `guk_xfree` returns it keeps the heap in balance: for every byte, the free blocks, the
-- blocks handed out and the pages given back that it is in are as many as the pages got that it is
-- in.
pub xfree-IsBalanced : (p : ℕ) (h h' : Heap) → IsBalanced h → xfree p h ≡ some h' → IsBalanced h'
unfolding xfree
xfree-IsBalanced p h h' v e = elim (Bool-cases (p == 0)) [
  | inl null ↦ subst Balanced (sym (if-true _ _ _ null) ∙ e) v
  | inr block ↦ elim (Bool-cases (not ((p / page_size) == ((p - header_size) / page_size)))) [
    | inl torn ↦ cc (sym (if-false _ _ _ block ∙ if-true _ _ _ torn) ∙ e)
    | inr whole ↦
        subst Balanced (sym (if-false _ _ _ block ∙ if-false _ _ _ whole) ∙ e)
          (free_block-Balanced h _ (λ x. coverings-take_block x (p - header_size) h.handed_out) v)
  ]
]
