-- ===== src/Heap/Pages/Shapes.antt =====
-- Where the blocks of the heap lie in its pages.
use guestvm_guk.Base.{
  ℕ, ◌+◌, ◌-◌, ◌*◌, ◌/◌, ◌%◌, ◌≤◌, ◌<◌, ◌≡◌, refl, sym, ◌∙◌, subst, ◌⊎◌, inl, inr, not, arith,
  Option, none, some, List, [], ◌∷◌, ltb, leb, ◌==◌, if-true, if-false, Bool-cases,
}
use guestvm_guk.Heap.{
  Block, Heap, header_size, page_size, same_page, keep, maybe_split, align_up, padded_size,
  find_fit, merge, take_block, skip, xmalloc_new_page, xmalloc_whole_pages, xmalloc_small, xmalloc,
  put_merged, free_block, xfree,
}
use guestvm_guk.Heap.Conserve.{Fitting, Fitting-find_fit}
use guestvm_guk.Heap.Pages.{address_of}

-- a block within a page, and one of whole pages
abbrev pub InPage : Block → Type 0
InPage b = b.addr % page_size + b.size ≤ page_size

abbrev pub OfPages : Block → Type 0
OfPages b = (b.addr % page_size ≡ 0) × (b.size % page_size ≡ 0)

abbrev pub Lies : Block → Type 0
Lies b = InPage b ⊎ OfPages b

abbrev pub Each : (Block → Type 0) → List Block → Type 0
Each P [] = Unit
Each P (b ∷ blocks) = P b × Each P blocks

-- Free blocks lie within pages, and so do those handed out that are not whole pages.
pub record HasShape (h : Heap) : Type 0 where
  pub free : Each InPage h.freelist
  pub handed : Each Lies h.handed_out

module _ (P : Block → Type 0) where
  abbrev pub Found : Option (Block × List Block) → Type 0
  Found none = Unit
  Found (some (b, rest)) = P b × Each P rest

  Found-skip : (i : Block) (r : Option (Block × List Block)) → P i → Found r → Found (skip i r)
  Found-skip i none p h = tt
  Found-skip i (some (b, rest)) p h = (h.0, (p, h.1))

  pub find_fit-Found : (size : ℕ) (free : List Block) → Each P free → Found (find_fit size free)
  unfolding find_fit
  find_fit-Found size [] e = tt
  find_fit-Found size (i ∷ free) e = elim (Bool-cases (ltb i.size size)) [
    | inl small ↦
        subst Found (sym (if-true _ _ _ small)) (Found-skip i _ e.0 (find_fit-Found size free e.1))
    | inr fits ↦ subst Found (sym (if-false _ _ _ fits)) e
  ]

  pub take_block-Found :
      (hdr : ℕ) (blocks : List Block) → Each P blocks → Found (take_block hdr blocks)
  unfolding take_block
  take_block-Found hdr [] e = tt
  take_block-Found hdr (b ∷ blocks) e = elim (Bool-cases (b.addr == hdr)) [
    | inl here ↦ subst Found (sym (if-true _ _ _ here)) e
    | inr not_here ↦
        subst Found (sym (if-false _ _ _ not_here))
          (Found-skip b _ e.0 (take_block-Found hdr blocks e.1))
  ]

-- a block with the free list beside it
abbrev Beside : Block × List Block → Type 0
Beside (b, free) = InPage b × Each InPage free

maybe_split-Beside :
    (hdr size block : ℕ) (free : List Block)
    → hdr % page_size + block ≤ page_size
    → size ≤ block
    → Each InPage free
    → Beside (maybe_split hdr size block free)
unfolding maybe_split
maybe_split-Beside hdr size block free fits small e =
    elim (Bool-cases (leb (2 * header_size) (block - size))) [
      | inl room ↦
          subst Beside (sym (if-true _ _ _ room))
            (omega (arith, fits, small), (ground (arith, fits, small, room), e))
      | inr tight ↦ subst Beside (sym (if-false _ _ _ tight)) (fits, e)
    ]

keep-Beside : (i : Block) (r : Block × List Block) → InPage i → Beside r → Beside (keep i r)
keep-Beside i (b, free) p h = (h.0, (p, h.1))

merge-Beside :
    (hdr : Block) (free : List Block) → InPage hdr → Each InPage free → Beside (merge hdr free)
unfolding merge
merge-Beside hdr [] fits e = (fits, tt)
merge-Beside hdr (i ∷ free) fits e = elim (Bool-cases (not (same_page i hdr))) [
  | inl apart ↦
      subst Beside (sym (if-true _ _ _ apart))
        (keep-Beside i _ e.0 (merge-Beside hdr free fits e.1))
  | inr same ↦ elim (Bool-cases (i.addr + i.size == hdr.addr)) [
    | inl follows ↦ subst Beside (sym (if-false _ _ _ same ∙ if-true _ _ _ follows)) (
        merge-Beside (record { addr = i.addr; size = i.size + hdr.size }) free
          (ground (arith, same, follows, fits, e.0)) e.1)
    | inr not_follows ↦ elim (Bool-cases (hdr.addr + hdr.size == i.addr)) [
      | inl precedes ↦
          subst Beside
            (sym (if-false _ _ _ same ∙ if-false _ _ _ not_follows ∙ if-true _ _ _ precedes))
            (merge-Beside (record { addr = hdr.addr; size = hdr.size + i.size }) free
              (ground (arith, same, precedes, fits, e.0)) e.1)
      | inr beside ↦
          subst Beside
            (sym (if-false _ _ _ same ∙ if-false _ _ _ not_follows ∙ if-false _ _ _ beside))
            (keep-Beside i _ e.0 (merge-Beside hdr free fits e.1))
    ]
  ]
]

xmalloc_small-HasShape :
    (got : Option ℕ) (size : ℕ) (h : Heap) (r : Option (Block × List Block))
    → size ≤ page_size
    → Found InPage r
    → Fitting size r
    → HasShape h
    → HasShape (xmalloc_small (address_of got) size h r).1
unfolding xmalloc_small xmalloc_new_page
xmalloc_small-HasShape none size h none small found fits v = v
xmalloc_small-HasShape (some page) size h none small found fits v =
    let (a, b) =
      maybe_split-Beside (page * page_size) size page_size h.freelist (omega arith) small v.free in
    record { free = b; handed = (inl a, v.handed) }
xmalloc_small-HasShape got size h (some (i, free)) small found fits v =
    let (a, b) = maybe_split-Beside i.addr size i.size free found.0 fits found.1 in
    record { free = b; handed = (inl a, v.handed) }

xmalloc_whole_pages-HasShape :
    (got : Option ℕ) (size : ℕ) (h : Heap)
    → HasShape h
    → HasShape (xmalloc_whole_pages (address_of got) size h).1
unfolding xmalloc_whole_pages align_up
xmalloc_whole_pages-HasShape none size h v = v
xmalloc_whole_pages-HasShape (some page) size h v = record {
  free = v.free;
  handed = (inr (omega arith, omega arith), v.handed);
}

pub xmalloc-HasShape :
    (got : Option ℕ) (asize : ℕ) (h : Heap)
    → HasShape h
    → HasShape (xmalloc (λ k. address_of got) asize h).1
unfolding xmalloc
xmalloc-HasShape got asize h v = elim (Bool-cases (leb page_size (padded_size asize))) [
  | inl large ↦
      subst {A = Option ℕ × Heap} (λ r. HasShape r.1) (sym (if-true _ _ _ large))
        (xmalloc_whole_pages-HasShape got (padded_size asize) h v)
  | inr small ↦
      subst {A = Option ℕ × Heap} (λ r. HasShape r.1) (sym (if-false _ _ _ small))
        (xmalloc_small-HasShape got (padded_size asize) h (find_fit (padded_size asize) h.freelist)
          (ground (arith, small)) (find_fit-Found InPage (padded_size asize) h.freelist v.free)
          (Fitting-find_fit (padded_size asize) h.freelist) v)
]

-- What `guk_xfree` leaves: a heap in shape, with the same pages got, and at most one block of whole pages
-- given back.
pub data Freed (h h' : Heap) : Type 0 where
  kept : HasShape h' → h'.taken ≡ h.taken → h'.given ≡ h.given → Freed h h'
  gave :
      (b : Block)
      → HasShape h'
      → OfPages b
      → page_size ≤ b.size
      → h'.taken ≡ h.taken
      → h'.given ≡ b ∷ h.given
      → Freed h h'

abbrev FreedIf : Heap → Option Heap → Type 0
FreedIf h none = Unit
FreedIf h (some h') = Freed h h'

put_merged-Freed :
    (h : Heap) (rest : List Block) (r : Block × List Block)
    → Each Lies rest
    → Beside r
    → FreedIf h (put_merged (record h { handed_out = rest }) r)
unfolding put_merged
put_merged-Freed h rest (hdr, free) e m = elim (Bool-cases (hdr.size == page_size)) [
  | inl whole ↦ elim (Bool-cases (hdr.addr % page_size == 0)) [
    | inl aligned ↦ subst (FreedIf h) (sym (if-true _ _ _ whole ∙ if-true _ _ _ aligned)) (
        gave hdr (record { free = m.1; handed = e })
          (ground (arith, aligned), ground (arith, whole)) (ground (arith, whole)) refl refl)
    | inr crooked ↦ subst (FreedIf h) (sym (if-true _ _ _ whole ∙ if-false _ _ _ crooked)) tt
  ]
  | inr part ↦
      subst (FreedIf h) (sym (if-false _ _ _ part))
        (kept (record { free = m; handed = e }) refl refl)
]

-- A block handed out is within a page, or is pages, by its size.
small-InPage : (b : Block) → Lies b → b.size < page_size → InPage b
small-InPage b (inl p) h = p
small-InPage b (inr p) h = omega (arith, p, h)

large-OfPages : (b : Block) → Lies b → page_size ≤ b.size → OfPages b
large-OfPages b (inl p) h = (omega (arith, p, h), omega (arith, p, h))
large-OfPages b (inr p) h = p

free_block-Freed :
    (h : Heap) (r : Option (Block × List Block))
    → Found Lies r
    → HasShape h
    → FreedIf h (free_block h r)
unfolding free_block
free_block-Freed h none found v = tt
free_block-Freed h (some (hdr, rest)) found v = elim (Bool-cases (leb page_size hdr.size)) [
  | inl large ↦ subst (FreedIf h) (sym (if-true _ _ _ large)) (
      gave hdr (record { free = v.free; handed = found.1 })
        (large-OfPages hdr found.0 (ground (arith, large))) (ground (arith, large)) refl refl)
  | inr small ↦ subst (FreedIf h) (sym (if-false _ _ _ small)) (
      put_merged-Freed h rest (merge hdr h.freelist) found.1
        (merge-Beside hdr h.freelist (small-InPage hdr found.0 (ground (arith, small))) v.free))
]

pub xfree-Freed : (p : ℕ) (h h' : Heap) → HasShape h → xfree p h ≡ some h' → Freed h h'
unfolding xfree
xfree-Freed p h h' v e = elim (Bool-cases (p == 0)) [
  | inl null ↦ subst (FreedIf h) (sym (if-true _ _ _ null) ∙ e) (kept v refl refl)
  | inr block ↦ elim (Bool-cases (not ((p / page_size) == ((p - header_size) / page_size)))) [
    | inl torn ↦ cc (sym (if-false _ _ _ block ∙ if-true _ _ _ torn) ∙ e)
    | inr whole ↦
        subst (FreedIf h) (sym (if-false _ _ _ block ∙ if-false _ _ _ whole) ∙ e)
          (free_block-Freed h _ (take_block-Found Lies (p - header_size) h.handed_out v.handed) v)
  ]
]
