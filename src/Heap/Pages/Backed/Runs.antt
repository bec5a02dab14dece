-- ===== src/Heap/Pages/Backed/Runs.antt =====
-- Runs of the heap over a lawful page allocator.
use guestvm_guk.Base.{refl, subst, arith}
use guestvm_guk.Heap.Coverings.{coverings}
use guestvm_guk.Heap.Pages.{PageSource, IsLawful, System}
use guestvm_guk.Heap.Pages.Backed.{
  Step, Steps, done, step, mallocs, frees, IsBacked, Backed, empty_heap,
}
use guestvm_guk.Heap.Pages.Backed.Gets.{xmalloc_from-IsBacked}
use guestvm_guk.Heap.Pages.Backed.Frees.{xfree_from-IsBacked}

module _ (S : PageSource) (IsOrdered : S.State → Type 0) (lawful : IsLawful S IsOrdered)
    (s : S.State) where
  Step-IsBacked : (y y' : System S) → Step S y y' → Backed S IsOrdered s y → Backed S IsOrdered s y'
  Step-IsBacked y y' (mallocs asize low e) v =
      subst (Backed S IsOrdered s) e (xmalloc_from-IsBacked S IsOrdered lawful s asize y low v)
  Step-IsBacked y y' (frees p e) v = xfree_from-IsBacked S IsOrdered lawful s p y y' v e

  pub Steps-keeps :
      (y'' y : System S) → Steps S y'' y → Backed S IsOrdered s y → Backed S IsOrdered s y''
  Steps-keeps y'' y done v = v
  Steps-keeps y'' y (step _ y' one more) v = Steps-keeps y'' y' more (Step-IsBacked y y' one v)

-- Calls that start with an empty heap.
pub Steps-IsBacked :
    (S : PageSource) (IsOrdered : S.State → Type 0)
    → IsLawful S IsOrdered
    → (s : S.State) (y : System S) → IsOrdered s
    → Steps S y (record { pages = s; heap = empty_heap })
    → IsBacked S IsOrdered s y
unfolding coverings
Steps-IsBacked S IsOrdered lawful s y o steps =
    Steps-keeps S IsOrdered lawful s y (record { pages = s; heap = empty_heap }) steps
      (record {
        ordered = o;
        shape = record { free = tt; handed = tt };
        balanced = λ x. refl;
        once = λ x. omega arith;
        apart = λ x h. refl;
        exact = λ x. ground arith;
      })
