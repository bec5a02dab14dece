-- ===== src/Heap/Pages/Backed/Frees.antt =====
-- guk_xfree over a lawful page allocator.
use guestvm_guk.Base.{
  ℕ, ◌+◌, ◌*◌, ◌/◌, ◌≤◌, ◌≡◌, refl, sym, ap, ◌∙◌, subst, true, arith, some, ◌∷◌, if◌then◌else◌,
  Bool-cases, Option-cases, inl, inr,
}
use guestvm_guk.Memory.Bitmap.Ranges.{in_range}
use guestvm_guk.Heap.{Block, Heap, page_size, xfree}
use guestvm_guk.Heap.Coverings.{covers, coverings}
use guestvm_guk.Heap.Conserve.{IsBalanced, xfree-IsBalanced}
use guestvm_guk.Heap.Pages.{
  PageSource, IsLawful, newly_given, System, give_back, with_given_back, xfree_from,
}
use guestvm_guk.Heap.Pages.Shapes.{HasShape, OfPages, Freed, kept, gave, xfree-Freed}
use guestvm_guk.Heap.Pages.Grows.{held, covers-OfPages, newly_given-same, newly_given-more}
use guestvm_guk.Heap.Pages.Backed.{Backed, Backed-in_use, same-IsBacked}

module _ (S : PageSource) (IsOrdered : S.State → Type 0) (lawful : IsLawful S IsOrdered)
    (s : S.State) where
  -- A heap that has given back a block of whole pages.
  gave-IsBacked :
      (b : Block) (y : System S) (h' : Heap)
      → Backed S IsOrdered s y
      → HasShape h'
      → IsBalanced h'
      → OfPages b
      → page_size ≤ b.size
      → h'.taken ≡ y.heap.taken
      → h'.given ≡ b ∷ y.heap.given
      → Backed S IsOrdered s (record { pages = give_back S (some b) y.pages; heap = h' })
  unfolding coverings
  gave-IsBacked b y h' v sh bal p large t g =
      let (o, unmarked) =
        lawful.freed (b.addr / page_size) (b.size / page_size) y.pages (omega arith) v.ordered
          in_use in
      record {
        ordered = o;
        shape = sh;
        balanced = bal;
        once = λ x. omega (arith, less x, v.once x);
        apart = λ x h. omega (arith, less x, v.apart x h);
        exact = λ x. elim (Bool-cases (S.page_in_use s (x / page_size))) [
          | inl before ↦ ground (
            arith,
            less x,
            covers-OfPages b x p,
            unmarked (x / page_size),
            v.exact x,
            before,
            v.apart x before,
          )
          | inr not_before ↦ ground (
            arith,
            less x,
            covers-OfPages b x p,
            unmarked (x / page_size),
            v.exact x,
            not_before,
            v.once x,
          )
        ];
      }
    where
      less : (x : ℕ) → held x y.heap ≡ (if covers b x then 1 else 0) + held x h'
      less x = omega (arith, bal x, v.balanced x, ap (coverings x) t, ap (coverings x) g)

      in_use :
          (q : ℕ)
          → in_range (b.addr / page_size) (b.size / page_size) q ≡ true
          → S.page_in_use y.pages q ≡ true
      in_use q within =
          let at : q * page_size / page_size ≡ q = omega arith in
          let inside : covers b (q * page_size) ≡ true =
            covers-OfPages b (q * page_size) p
            ∙ ap (in_range (b.addr / page_size) (b.size / page_size)) at
            ∙ within in
          ap (S.page_in_use y.pages) (sym at)
          ∙ Backed-in_use S IsOrdered s (q * page_size) y v
              (ground (arith, less (q * page_size), inside))

  pub xfree_from-IsBacked :
      (p : ℕ) (y y' : System S)
      → Backed S IsOrdered s y
      → xfree_from S p y ≡ some y'
      → Backed S IsOrdered s y'
  unfolding xfree_from
  xfree_from-IsBacked p y y' v e = elim (Option-cases (xfree p y.heap)) [
    | inl crash ↦ cc (sym (ap (with_given_back S y) crash) ∙ e)
    | inr (h, f) ↦
        let same : record {
          pages = give_back S (newly_given y.heap.given h.given) y.pages;
          heap = h;
        }
            ≡ y' =
          cc (sym (ap (with_given_back S y) f) ∙ e) in
        subst (Backed S IsOrdered s) same
          (freed h (xfree-IsBalanced p y.heap h v.balanced f) (xfree-Freed p y.heap h v.shape f))
  ]
    where
      freed :
          (h : Heap)
          → IsBalanced h
          → Freed y.heap h
          → Backed S IsOrdered s
              (record { pages = give_back S (newly_given y.heap.given h.given) y.pages; heap = h })
      freed h b (kept sh t g) =
          let nothing = ap (newly_given y.heap.given) g ∙ newly_given-same y.heap.given in
          subst (λ o. Backed S IsOrdered s (record { pages = give_back S o y.pages; heap = h }))
            (sym nothing)
            (same-IsBacked S IsOrdered s y (record { pages = y.pages; heap = h }) v v.ordered sh b t
              g (λ q. refl))
      freed h b (gave block sh p large t g) =
          let one = ap (newly_given y.heap.given) g ∙ newly_given-more block y.heap.given in
          subst (λ o. Backed S IsOrdered s (record { pages = give_back S o y.pages; heap = h }))
            (sym one) (gave-IsBacked block y h v sh b p large t g)
