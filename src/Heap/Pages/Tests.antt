-- ===== src/Heap/Pages/Tests.antt =====
-- The heap over a pool of 64 pages.
use guestvm_guk.Base.{◌≡◌, refl, ap, false, arith, [], ◌∷◌, some}
use guestvm_guk.Memory.Bitmap.{allocated_in_map, map_alloc, map_free, fill_words}
use guestvm_guk.Memory.Scan.{find_run, extend_run, next_free, next_free_loop, int_page}
use guestvm_guk.Memory.Pool.{
  Pool, Reserve, allocate_pages, allocate_loop, search_pages, take_pages, deallocate_pages,
}
use guestvm_guk.Heap.{
  xmalloc, padded_size, align_up, xmalloc_small, xmalloc_whole_pages, find_fit, xfree, free_block,
  take_block, merge, put_merged,
}
use guestvm_guk.Memory.Pool.Fixed.{IsFixed}
use guestvm_guk.Heap.Pages.{System, pages_wanted, xmalloc_from, xfree_from}
use guestvm_guk.Heap.Pages.Backed.{IsBacked, Steps, done, step, mallocs, frees, empty_heap}
use guestvm_guk.Heap.Pages.FromPool.{pool_source, pool_source-IsBacked}

-- Pages 2 to 31 are small, 32 to 63 bulk.
abbrev pool : Pool
pool = record {
  alloc_bitmap = 3 ∷ [];
  first_alloc_page = 2;
  end_alloc_page = 64;
  max_end_alloc_page = 64;
  first_free_page = 2;
  first_bulk_page = 32;
  first_free_bulk_page = 32;
  num_free_pages = 62;
  num_free_bulk_pages = 32;
  memory_hole_list = [];
  in_increase_memory = false;
}

abbrev no_memory : Reserve
no_memory nr h p = (0, p)

abbrev start : System (pool_source no_memory)
start = record { pages = pool; heap = empty_heap }

abbrev two_pages : System (pool_source no_memory)
two_pages = record {
  pages = record pool { alloc_bitmap = 15 ∷ []; first_free_page = 4; num_free_pages = 60 };
  heap = record {
    freelist = [];
    handed_out = record { addr = 8192; size = 8192 } ∷ [];
    taken = record { addr = 8192; size = 8192 } ∷ [];
    given = [];
  };
}

pool-IsFixed : IsFixed pool
pool-IsFixed = record {
  covers = omega arith;
  small = omega arith;
  bulk_region = omega arith;
  no_holes = refl;
}

-- After `guk_xfree` of the block.
abbrev no_pages : System (pool_source no_memory)
no_pages = record {
  pages = pool;
  heap = record {
    freelist = [];
    handed_out = [];
    taken = record { addr = 8192; size = 8192 } ∷ [];
    given = record { addr = 8192; size = 8192 } ∷ [];
  };
}

malloc_test : xmalloc_from (pool_source no_memory) 5000 start ≡ (some 8216, two_pages)
unfolding xmalloc_from pages_wanted xmalloc padded_size align_up xmalloc_small xmalloc_whole_pages
    find_fit allocate_pages allocate_loop search_pages take_pages find_run extend_run next_free
    next_free_loop int_page allocated_in_map map_alloc fill_words
malloc_test = refl

free_test : xfree_from (pool_source no_memory) 8216 two_pages ≡ some no_pages
unfolding xfree_from xfree free_block take_block merge put_merged deallocate_pages map_free
    fill_words
free_test = refl

two_steps : Steps (pool_source no_memory) no_pages start
two_steps =
    step start two_pages (mallocs 5000 (omega arith) (ap (λ r. r.1) malloc_test))
      (step two_pages no_pages (frees 8216 free_test) done)

pool_source-IsBacked_example : IsBacked (pool_source no_memory) IsFixed pool no_pages
pool_source-IsBacked_example = pool_source-IsBacked no_memory pool no_pages pool-IsFixed two_steps
