-- ===== src/Heap/Tests.antt =====
-- A heap of one page, and the theorems on it.
use guestvm_guk.Base.{ℕ, ◌+◌, ◌-◌, ◌^◌, ◌≡◌, refl, arith, Option, some, [], ◌∷◌}
use guestvm_guk.Heap.{
  Block, Heap, header_size, find_fit, padded_size, align_up, maybe_split, merge, take_block,
  put_merged, free_block, xmalloc, xmalloc_small, xfree, xrealloc, resize, move_block, through_int,
}
use guestvm_guk.Heap.Coverings.{coverings}
use guestvm_guk.Heap.Conserve.{IsBalanced, xmalloc-IsBalanced, xfree-IsBalanced}
use guestvm_guk.Heap.Merged.{IsMerged, xfree-IsMerged}
use guestvm_guk.Heap.Room.{HandsOut, xmalloc-HandsOut}
use guestvm_guk.Heap.NewPage.{NewBlock, gave_page, xmalloc-overflow, xfree-xmalloc}
use guestvm_guk.Heap.Realloc.{xrealloc-IsBalanced, xrealloc-stays}

abbrev chunk : ℕ → ℕ → Block
chunk addr size = record { addr = addr; size = size }

-- A page at 40960: two blocks handed out, with a free block between them and one behind them.
abbrev heap : Heap
heap = record {
  freelist = chunk 41000 100 ∷ chunk 41300 3756 ∷ [];
  handed_out = chunk 40960 40 ∷ chunk 41100 200 ∷ [];
  taken = chunk 40960 4096 ∷ [];
  given = [];
}

abbrev pages : ℕ → Option ℕ
pages n = some 81920

abbrev empty_heap : Heap
empty_heap = record { freelist = []; handed_out = []; taken = []; given = [] }

heap-IsBalanced : IsBalanced heap
unfolding coverings
heap-IsBalanced x = ground arith

xmalloc-IsBalanced_test : IsBalanced (xmalloc pages 10 heap).1
xmalloc-IsBalanced_test = xmalloc-IsBalanced pages 10 heap heap-IsBalanced

-- the heap after the second block has been joined with its neighbours
abbrev freed : Heap
freed = record {
  freelist = chunk 41000 4056 ∷ [];
  handed_out = chunk 40960 40 ∷ [];
  taken = chunk 40960 4096 ∷ [];
  given = [];
}

xfree-IsBalanced_example : IsBalanced freed
unfolding xfree take_block free_block merge put_merged
xfree-IsBalanced_example = xfree-IsBalanced 41124 heap freed heap-IsBalanced refl

xfree-IsMerged_example : IsMerged freed.freelist
unfolding xfree take_block free_block merge put_merged
xfree-IsMerged_example = xfree-IsMerged 41124 heap freed ((refl, tt), (tt, tt)) refl

xmalloc-HandsOut_test : HandsOut (10 + header_size) (xmalloc pages 10 heap)
xmalloc-HandsOut_test = xmalloc-HandsOut pages 10 heap (omega arith)

xmalloc-overflow_example :
    NewBlock 81920 header_size empty_heap (xmalloc pages (2 ^ 64 - 1) empty_heap)
unfolding find_fit
xmalloc-overflow_example =
    xmalloc-overflow pages (2 ^ 64 - 1) 81920 empty_heap (omega arith) (omega arith) refl refl

xfree-xmalloc_test :
    xfree (81920 + header_size) (xmalloc pages 100 empty_heap).1 ≡ some (gave_page 81920 empty_heap)
unfolding find_fit
xfree-xmalloc_test =
    xfree-xmalloc pages 100 81920 empty_heap (omega arith) refl refl (omega arith) tt

-- the heap after the first block has been moved to the free block behind the second
abbrev moved : Heap
moved = record {
  freelist = chunk 40960 140 ∷ chunk 41428 3628 ∷ [];
  handed_out = chunk 41300 128 ∷ chunk 41100 200 ∷ [];
  taken = chunk 40960 4096 ∷ [];
  given = [];
}

xrealloc-IsBalanced_test : IsBalanced moved
unfolding xrealloc resize move_block through_int xmalloc xmalloc_small padded_size align_up find_fit
    maybe_split xfree take_block free_block merge put_merged
xrealloc-IsBalanced_test = xrealloc-IsBalanced pages 40984 104 41324 heap moved heap-IsBalanced refl

abbrev large_heap : Heap
large_heap = record {
  freelist = [];
  handed_out = chunk 40960 3000000512 ∷ [];
  taken = chunk 40960 3000000512 ∷ [];
  given = [];
}

xrealloc-stays_test : xrealloc pages 40984 (2 ^ 40) large_heap ≡ some (40984, large_heap)
unfolding take_block
xrealloc-stays_test =
    xrealloc-stays pages 40984 (2 ^ 40) large_heap (chunk 40960 3000000512) [] refl (omega arith)
      (omega arith) (omega arith)
