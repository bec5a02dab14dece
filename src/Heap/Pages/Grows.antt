-- ===== src/Heap/Pages/Grows.antt =====
-- What the calls of the heap do to the pages that it has got and given back.
use guestvm_guk.Base.{
  ℕ, ◌+◌, ◌*◌, ◌/◌, ◌^◌, ◌<◌, ◌≡◌, refl, sym, ap, ◌∙◌, arith, Option, none, some, List, [], ◌∷◌,
  leb, ◌==◌, length, if-true, if-false, Bool-cases, Option-cases, inl, inr,
}
use guestvm_guk.Memory.Bitmap.Ranges.{in_range}
use guestvm_guk.Heap.{
  Block, Heap, page_size, align_up, padded_size, find_fit, xmalloc_new_page, xmalloc_whole_pages,
  xmalloc_small, xmalloc,
}
use guestvm_guk.Heap.Coverings.{covers, coverings}
use guestvm_guk.Heap.Pages.{pages_wanted, address_of, newly_given}
use guestvm_guk.Heap.Pages.Shapes.{OfPages}

-- how many blocks of the heap, free or handed out, a byte is in
abbrev pub held : ℕ → Heap → ℕ
held x h = coverings x h.freelist + coverings x h.handed_out

-- the block of the pages that the page allocator gave
abbrev pub run_of : ℕ → ℕ → Block
run_of page n = record { addr = page * page_size; size = n * page_size }

-- the pages got so far, with those of a call
abbrev pub grown : Option ℕ → Option ℕ → List Block → List Block
grown none got taken = taken
grown (some n) none taken = taken
grown (some n) (some page) taken = run_of page n ∷ taken

-- what a call of `guk_xmalloc` does to the pages got and given back
abbrev pub Grows : Option ℕ → Option ℕ → Heap → Heap → Type 0
Grows wanted got h h' = (h'.taken ≡ grown wanted got h.taken) × (h'.given ≡ h.given)

xmalloc_whole_pages-Grows :
    (got : Option ℕ) (size : ℕ) (h : Heap)
    → Grows
        (some (align_up size page_size / page_size))
        got
        h
        (xmalloc_whole_pages (address_of got) size h).1
unfolding xmalloc_whole_pages align_up
xmalloc_whole_pages-Grows none size h = (refl, refl)
xmalloc_whole_pages-Grows (some page) size h =
    (ap {A = ℕ} (λ k. record { addr = page * page_size; size = k } ∷ h.taken) (omega arith), refl)

xmalloc_new_page-Grows :
    (got : Option ℕ) (size : ℕ) (h : Heap)
    → Grows (some 1) got h (xmalloc_new_page (address_of got) size h).1
unfolding xmalloc_new_page
xmalloc_new_page-Grows none size h = (refl, refl)
xmalloc_new_page-Grows (some page) size h = (refl, refl)

pub xmalloc-Grows :
    (got : Option ℕ) (asize : ℕ) (h : Heap)
    → Grows (pages_wanted asize h) got h (xmalloc (λ k. address_of got) asize h).1
unfolding pages_wanted xmalloc xmalloc_small
xmalloc-Grows got asize h = elim (Bool-cases (leb page_size (padded_size asize))) [
  | inl large ↦ rw large (xmalloc_whole_pages-Grows got (padded_size asize) h)
  | inr small ↦ rw small (elim (Option-cases (find_fit (padded_size asize) h.freelist)) [
    | inl no_fit ↦ rw no_fit (xmalloc_new_page-Grows got (padded_size asize) h)
    | inr (found, e) ↦ rw e (refl, refl)
  ])
]

-- A call that asks asks for at least a page.
pub pages_wanted-positive :
    (asize n : ℕ) (h : Heap) → asize < 2 ^ 63 → pages_wanted asize h ≡ some n → 0 < n
unfolding pages_wanted padded_size align_up
pages_wanted-positive asize n h low e = elim (Bool-cases (leb page_size (padded_size asize))) [
  | inl large ↦ ground (arith, sym (if-true _ _ _ large) ∙ e, large)
  | inr small ↦ elim (Option-cases (find_fit (padded_size asize) h.freelist)) [
    | inl no_fit ↦ ground (arith, small, no_fit, e)
    | inr (found, f) ↦ ground (arith, small, f, e)
  ]
]

pub covers-run_of : (page n x : ℕ) → covers (run_of page n) x ≡ in_range page n (x / page_size)
covers-run_of page n x = ground arith

pub covers-OfPages :
    (b : Block) (x : ℕ)
    → OfPages b
    → covers b x ≡ in_range (b.addr / page_size) (b.size / page_size) (x / page_size)
covers-OfPages b x p = ground (arith, p)

pub newly_given-same : (given : List Block) → newly_given given given ≡ none
newly_given-same [] = refl
newly_given-same (b ∷ given) = if-false (length given == length (b ∷ given)) _ _ (ground arith)

pub newly_given-more : (b : Block) (given : List Block) → newly_given given (b ∷ given) ≡ some b
newly_given-more b given = if-true (length given == length given) _ _ (ground arith)
