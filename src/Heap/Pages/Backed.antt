-- ===== src/Heap/Pages/Backed.antt =====
-- The heap over a lawful page allocator: no two blocks overlap, and each lies on pages in use.
pub mod Gets
pub mod Frees
pub mod Runs
use guestvm_guk.Base.{
  ℕ, ◌+◌, ◌-◌, ◌*◌, ◌/◌, ◌%◌, ◌^◌, ◌≤◌, ◌<◌, ◌≡◌, refl, sym, ap, ◌∙◌, subst, Bool, true, false, not,
  ◌&&◌, ◌||◌, arith, Option, none, some, List, [], ◌∷◌, ltb, leb, ◌==◌, length, if◌then◌else◌,
  if-true, if-false, Bool-cases, Option-cases, dec_lt, inl, inr,
}
use guestvm_guk.Memory.Bitmap.Ranges.{in_range}
use guestvm_guk.Heap.{
  Block, Heap, header_size, page_size, align_up, padded_size, find_fit, maybe_split, hand_out,
  xmalloc_new_page, xmalloc_whole_pages, xmalloc_small, xmalloc, xfree,
}
use guestvm_guk.Heap.Coverings.{covers, coverings}
use guestvm_guk.Heap.Conserve.{IsBalanced, xmalloc-IsBalanced, xfree-IsBalanced}
use guestvm_guk.Heap.Pages.{
  PageSource, IsLawful, pages_wanted, address_of, newly_given, System, ask_pages, xmalloc_from,
  give_back, with_given_back, xfree_from,
}
use guestvm_guk.Heap.Pages.Shapes.{
  HasShape, OfPages, Freed, kept, gave, xmalloc-HasShape, xfree-Freed,
}
use guestvm_guk.Heap.Pages.Grows.{
  held, run_of, grown, Grows, xmalloc-Grows, pages_wanted-positive, covers-run_of, covers-OfPages,
  newly_given-same, newly_given-more,
}

module _ (S : PageSource) where
  -- A call of the heap. The pages of a larger size do not fit the `int` of the page allocator.
  pub data Step (y y' : System S) : Type 0 where
    mallocs : (asize : ℕ) → asize < 2 ^ 42 → (xmalloc_from S asize y).1 ≡ y' → Step y y'
    frees : (p : ℕ) → xfree_from S p y ≡ some y' → Step y y'

  pub data Steps (y'' : System S) : System S → Type 0 where
    done : Steps y'' y''
    step : (y y' : System S) → Step y y' → Steps y'' y' → Steps y'' y

-- The heap with the pages that it has got since they were as in `s`.
pub record IsBacked (S : PageSource) (IsOrdered : S.State → Type 0) (s : S.State) (y : System S)
    : Type 0 where
  pub ordered : IsOrdered y.pages
  pub shape : HasShape y.heap
  pub balanced : IsBalanced y.heap
  -- Every byte is in one block at most.
  pub once : (x : ℕ) → held x y.heap ≤ 1
  -- A page that was in use has no block on it.
  pub apart : (x : ℕ) → S.page_in_use s (x / page_size) ≡ true → held x y.heap ≡ 0
  -- The pages in use are those, and the pages of the blocks, in all their bytes.
  pub exact :
      (x : ℕ)
      → S.page_in_use y.pages (x / page_size)
        ≡ (S.page_in_use s (x / page_size) || ltb 0 (held x y.heap))

module _ (S : PageSource) (IsOrdered : S.State → Type 0) (s : S.State) where
  abbrev pub Backed : System S → Type 0
  Backed y = IsBacked S IsOrdered s y

  pub Backed-in_use :
      (x : ℕ) (y : System S)
      → Backed y
      → 0 < held x y.heap
      → S.page_in_use y.pages (x / page_size) ≡ true
  Backed-in_use x y v h = ground (arith, v.exact x, h)

  -- A heap that holds the same bytes, over the same pages in use.
  pub same-IsBacked :
      (y y' : System S)
      → Backed y
      → IsOrdered y'.pages
      → HasShape y'.heap
      → IsBalanced y'.heap
      → y'.heap.taken ≡ y.heap.taken
      → y'.heap.given ≡ y.heap.given
      → ((q : ℕ) → S.page_in_use y'.pages q ≡ S.page_in_use y.pages q)
      → Backed y'
  same-IsBacked y y' v o sh b t g same = record {
    ordered = o;
    shape = sh;
    balanced = b;
    once = λ x. omega (arith, still x, v.once x);
    apart = λ x h. still x ∙ v.apart x h;
    exact = λ x. ground (arith, same (x / page_size), v.exact x, still x);
  }
    where
      still : (x : ℕ) → held x y'.heap ≡ held x y.heap
      still x = omega (arith, b x, v.balanced x, ap (coverings x) t, ap (coverings x) g)

abbrev pub empty_heap : Heap
empty_heap = record { freelist = []; handed_out = []; taken = []; given = [] }
