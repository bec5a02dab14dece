-- ===== src/Heap/Pages.antt =====
-- lib/xmalloc.c over a page allocator: the calls of `alloc_page`, `guk_allocate_pages`, `free_pages` and
-- `guk_deallocate_pages` that the heap makes. Pages are by number, and an address is that of its page
-- with the offset in it.
pub mod Shapes
pub mod Grows
pub mod Backed
pub mod FromPool
mod Tests
use guestvm_guk.Base.{
  ℕ, ◌+◌, ◌*◌, ◌/◌, ◌≤◌, ◌<◌, ◌≡◌, Bool, true, false, not, ◌&&◌, ◌||◌, Option, none, some, List, [],
  ◌∷◌, length, leb, ◌==◌, if◌then◌else◌,
}
use guestvm_guk.Memory.Bitmap.Ranges.{in_range}
use guestvm_guk.Heap.{Block, Heap, page_size, align_up, padded_size, find_fit, xmalloc, xfree}

-- what the heap calls of the page allocator, with the pages that are in use
pub record PageSource : Type 1 where
  pub State : Type 0
  pub allocate : ℕ → State → Option ℕ × State
  pub deallocate : ℕ → ℕ → State → State
  pub page_in_use : State → ℕ → Bool

-- What the heap assumes of it: a call gives pages that are not in use, and marks exactly those; pages that
-- are in use can be given back.
pub record IsLawful (S : PageSource) (IsOrdered : S.State → Type 0) : Type 0 where
  pub given :
      (n page : ℕ) (s s' : S.State)
      → 0 < n
      → IsOrdered s
      → S.allocate n s ≡ (some page, s')
      → IsOrdered s'
        × ((q : ℕ) → in_range page n q ≡ true → S.page_in_use s q ≡ false)
        × ((q : ℕ) → S.page_in_use s' q ≡ (S.page_in_use s q || in_range page n q))
  pub refused :
      (n : ℕ) (s s' : S.State)
      → 0 < n
      → IsOrdered s
      → S.allocate n s ≡ (none, s')
      → IsOrdered s' × ((q : ℕ) → S.page_in_use s' q ≡ S.page_in_use s q)
  pub freed :
      (page n : ℕ) (s : S.State)
      → 0 < n
      → IsOrdered s
      → ((q : ℕ) → in_range page n q ≡ true → S.page_in_use s q ≡ true)
      → IsOrdered (S.deallocate page n s)
        × ((q : ℕ)
            → S.page_in_use (S.deallocate page n s) q
              ≡ (S.page_in_use s q && not (in_range page n q)))

-- the number of pages that `guk_xmalloc` asks for, if it asks
unfoldable pub pages_wanted : ℕ → Heap → Option ℕ
pages_wanted asize h =
    let size = padded_size asize in
    if leb page_size size
    then some (align_up size page_size / page_size)
    else elim (find_fit size h.freelist) [ none ↦ some 1 | some _ ↦ none ]

-- the address of a page
abbrev pub address_of : Option ℕ → Option ℕ
address_of none = none
address_of (some page) = some (page * page_size)

-- the block that a call has given back to the page allocator, if it has
abbrev pub newly_given : List Block → List Block → Option Block
newly_given before [] = none
newly_given before (b ∷ rest) = if length rest == length before then some b else none

module _ (S : PageSource) where
  pub record System : Type 0 where
    pub pages : S.State
    pub heap : Heap

  abbrev pub ask_pages : Option ℕ → S.State → Option ℕ × S.State
  ask_pages none s = (none, s)
  ask_pages (some n) s = S.allocate n s

  -- `guk_xmalloc` with the page allocator's answer
  unfoldable pub xmalloc_from : ℕ → System → Option ℕ × System
  xmalloc_from asize y =
      let asked = ask_pages (pages_wanted asize y.heap) y.pages in
      let (p, h) = xmalloc (λ k. address_of asked.0) asize y.heap in
      (p, record { pages = asked.1; heap = h })

  abbrev pub give_back : Option Block → S.State → S.State
  give_back none s = s
  give_back (some b) s = S.deallocate (b.addr / page_size) (b.size / page_size) s

  abbrev pub with_given_back : System → Option Heap → Option System
  with_given_back y none = none
  with_given_back y (some h) =
      some (record { pages = give_back (newly_given y.heap.given h.given) y.pages; heap = h })

  -- `guk_xfree` with the pages that it gives back
  unfoldable pub xfree_from : ℕ → System → Option System
  xfree_from p y = with_given_back y (xfree p y.heap)
