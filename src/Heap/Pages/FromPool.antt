-- ===== src/Heap/Pages/FromPool.antt =====
-- The page pool of mm.c, without holes, as the page allocator of the heap.
use guestvm_guk.Base.{ℕ, ◌≡◌, ap, subst, Option, none, some}
use guestvm_guk.Memory.Pool.{Pool, Reserve, deallocate_pages, allocate_pages}
use guestvm_guk.Memory.Pool.Fixed.{
  IsFixed, in_pool, Gives, Answers, allocate_pages-Answers, deallocate_pages-frees,
}
use guestvm_guk.Heap.Pages.{PageSource, IsLawful, System}
use guestvm_guk.Heap.Pages.Backed.{IsBacked, Steps, empty_heap}
use guestvm_guk.Heap.Pages.Backed.Runs.{Steps-IsBacked}

-- `none` does not come: two rounds of the loop of `_allocate_pages` are enough for a pool without holes.
abbrev pub answer_of : Pool → Option (Option ℕ × Pool) → Option ℕ × Pool
answer_of p none = (none, p)
answer_of p (some r) = r

abbrev pub pool_source : Reserve → PageSource
pool_source reserve = record {
  State = Pool;
  allocate = λ n p. answer_of p (allocate_pages reserve 2 n p);
  deallocate = λ page n p. deallocate_pages p page n;
  page_in_use = in_pool;
}

answered-given :
    (n page : ℕ) (p p' : Pool) (r : Option (Option ℕ × Pool))
    → Answers p n r
    → answer_of p r ≡ (some page, p')
    → Gives p n page p'
answered-given n page p p' none a e = absurd a
answered-given n page p p' (some (none, q)) a e =
    absurd (cc (ap {A = Option ℕ × Pool} (λ x. x.0) e))
answered-given n page p p' (some (some page', q)) a e = subst (λ x. Answers p n (some x)) e a

answered-refused :
    (n : ℕ) (p p' : Pool) (r : Option (Option ℕ × Pool))
    → Answers p n r
    → answer_of p r ≡ (none, p')
    → IsFixed p' × ((q : ℕ) → in_pool p' q ≡ in_pool p q)
answered-refused n p p' none a e = absurd a
answered-refused n p p' (some (some page', q)) a e =
    absurd (cc (ap {A = Option ℕ × Pool} (λ x. x.0) e))
answered-refused n p p' (some (none, q)) a e = subst (λ x. Answers p n (some x)) e a

-- The pool keeps what the heap assumes of its page allocator.
pub pool_source-IsLawful : (reserve : Reserve) → IsLawful (pool_source reserve) IsFixed
pool_source-IsLawful reserve = record {
  given = λ n page p p' pos v e.
      let g : Gives p n page p' =
        answered-given n page p p' (allocate_pages reserve 2 n p)
          (allocate_pages-Answers reserve n p pos v) e in
      (g.fixed, g.fresh, g.marked);
  refused = λ n p p' pos v e.
      answered-refused n p p' (allocate_pages reserve 2 n p)
        (allocate_pages-Answers reserve n p pos v) e;
  freed = λ page n p pos v h. deallocate_pages-frees page n p pos v h;
}

-- Over a page pool that cannot grow, whose map has a bit for each page and less than 2^63 bits, and
-- whose bulk region starts in it, from an empty heap, after any calls of `guk_xmalloc` for less
-- than 2^42 bytes and of `guk_xfree` that return, in any order: no byte is in two blocks, free or
-- handed out; the pages of the pool in use are those that were in use at the start and those that
-- blocks lie on, which blocks fill; no block lies on a page that was in use at the start; a free
-- block lies within a page, and one handed out within a page or in whole pages; the heap is in
-- balance and the pool stays such a pool.
pub pool_source-IsBacked :
    (reserve : Reserve) (p : Pool) (y : System (pool_source reserve))
    → IsFixed p
    → Steps (pool_source reserve) y (record { pages = p; heap = empty_heap })
    → IsBacked (pool_source reserve) IsFixed p y
pool_source-IsBacked reserve p y fixed steps =
    Steps-IsBacked (pool_source reserve) IsFixed (pool_source-IsLawful reserve) p y fixed steps
