-- ===== src/Heap/Pages/Backed/Gets.antt =====
-- guk_xmalloc over a lawful page allocator.
use guestvm_guk.Base.{
  ℕ, ◌+◌, ◌/◌, ◌^◌, ◌<◌, ◌≡◌, refl, sym, ap, ◌∙◌, subst, false, arith, Option, none, some, ◌∷◌,
  if◌then◌else◌, Bool-cases, dec_lt, inl, inr,
}
use guestvm_guk.Memory.Bitmap.Ranges.{in_range}
use guestvm_guk.Heap.{page_size, xmalloc}
use guestvm_guk.Heap.Coverings.{covers, coverings}
use guestvm_guk.Heap.Conserve.{IsBalanced, xmalloc-IsBalanced}
use guestvm_guk.Heap.Pages.{
  PageSource, IsLawful, pages_wanted, address_of, System, ask_pages, xmalloc_from,
}
use guestvm_guk.Heap.Pages.Shapes.{HasShape, xmalloc-HasShape}
use guestvm_guk.Heap.Pages.Grows.{
  held, run_of, Grows, xmalloc-Grows, pages_wanted-positive, covers-run_of,
}
use guestvm_guk.Heap.Pages.Backed.{Backed, Backed-in_use, same-IsBacked}

module _ (S : PageSource) (IsOrdered : S.State → Type 0) (lawful : IsLawful S IsOrdered)
    (s : S.State) where
  -- A heap that has got the pages that the page allocator gave.
  got-IsBacked :
      (n page : ℕ) (y y' : System S)
      → Backed S IsOrdered s y
      → 0 < n
      → S.allocate n y.pages ≡ (some page, y'.pages)
      → HasShape y'.heap
      → IsBalanced y'.heap
      → y'.heap.taken ≡ run_of page n ∷ y.heap.taken
      → y'.heap.given ≡ y.heap.given
      → Backed S IsOrdered s y'
  unfolding coverings
  got-IsBacked n page y y' v pos e sh b t g =
      let (o, fresh, marked) = lawful.given n page y.pages y'.pages pos v.ordered e in
      record {
        ordered = o;
        shape = sh;
        balanced = b;
        once = λ x. elim (Bool-cases (in_range page n (x / page_size))) [
          | inl new ↦
              let none_yet : held x y.heap ≡ 0 = unheld x (fresh (x / page_size) new) in
              ground (arith, more x, covers-run_of page n x, new, none_yet)
          | inr old ↦ ground (arith, more x, covers-run_of page n x, old, v.once x)
        ];
        apart = λ x h. elim (Bool-cases (in_range page n (x / page_size))) [
          | inl new ↦ absurd (ground (arith, h, v.exact x, fresh (x / page_size) new))
          | inr old ↦ ground (arith, more x, covers-run_of page n x, old, v.apart x h)
        ];
        exact =
            λ x. ground (arith, more x, covers-run_of page n x, marked (x / page_size), v.exact x);
      }
    where
      more : (x : ℕ) → held x y'.heap ≡ (if covers (run_of page n) x then 1 else 0) + held x y.heap
      more x = omega (arith, b x, v.balanced x, ap (coverings x) t, ap (coverings x) g)

      unheld : (x : ℕ) → S.page_in_use y.pages (x / page_size) ≡ false → held x y.heap ≡ 0
      unheld x unused = elim (dec_lt 0 (held x y.heap)) [
        | yes some_held ↦ absurd (cc (sym (Backed-in_use S IsOrdered s x y v some_held) ∙ unused))
        | no none_held ↦ omega (arith, none_held)
      ]

  pub xmalloc_from-IsBacked :
      (asize : ℕ) (y : System S)
      → asize < 2 ^ 42
      → Backed S IsOrdered s y
      → Backed S IsOrdered s (xmalloc_from S asize y).1
  unfolding xmalloc_from
  xmalloc_from-IsBacked asize y low v =
      grows (pages_wanted asize y.heap) (ask_pages S (pages_wanted asize y.heap) y.pages).0
        (ask_pages S (pages_wanted asize y.heap) y.pages).1 refl
        (λ n. pages_wanted-positive asize n y.heap (omega (arith, low)))
        (xmalloc-Grows (ask_pages S (pages_wanted asize y.heap) y.pages).0 asize y.heap)
    where
      grows :
          (wanted got : Option ℕ) (s' : S.State)
          → ask_pages S wanted y.pages ≡ (got, s')
          → ((n : ℕ) → wanted ≡ some n → 0 < n)
          → Grows wanted got y.heap (xmalloc (λ k. address_of got) asize y.heap).1
          → Backed S IsOrdered s
              (record { pages = s'; heap = (xmalloc (λ k. address_of got) asize y.heap).1 })
      grows none got s' e pos g =
          let same : y.pages ≡ s' = ap {A = Option ℕ × S.State} (λ r. r.1) e in
          same-IsBacked S IsOrdered s y _ v (subst IsOrdered same v.ordered)
            (xmalloc-HasShape got asize y.heap v.shape)
            (xmalloc-IsBalanced _ asize y.heap v.balanced) g.0 g.1
            (λ q. ap (λ s. S.page_in_use s q) (sym same))
      grows (some n) none s' e pos g =
          let (o, same) = lawful.refused n y.pages s' (pos n refl) v.ordered e in
          same-IsBacked S IsOrdered s y _ v o (xmalloc-HasShape none asize y.heap v.shape)
            (xmalloc-IsBalanced _ asize y.heap v.balanced) g.0 g.1 same
      grows (some n) (some page) s' e pos g =
          got-IsBacked n page y _ v (pos n refl) e
            (xmalloc-HasShape (some page) asize y.heap v.shape)
            (xmalloc-IsBalanced _ asize y.heap v.balanced) g.0 g.1
