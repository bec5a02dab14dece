-- ===== src/Heap.antt =====
-- lib/xmalloc.c: the allocator of memory in smaller pieces than a page. A block starts with a header
-- that holds its size; free blocks are in a list. The page allocator is used by its answers, which are
-- arguments, and the pages that it gave and got back are recorded.
pub mod Coverings
pub mod Conserve
pub mod Merged
pub mod Room
pub mod NewPage
pub mod Realloc
pub mod Pages
mod Tests
use guestvm_guk.Base.{
  ℕ, ◌+◌, ◌-◌, ◌*◌, ◌/◌, ◌%◌, ◌^◌, Bool, true, false, not, Option, none, some, List, [], ◌∷◌, ltb,
  leb, ◌==◌, if◌then◌else◌,
}

-- `struct xmalloc_hdr` and the address at which it stands
pub record Block : Type 0 where
  pub addr : ℕ
  pub size : ℕ

-- `sizeof(struct xmalloc_hdr)` and `__alignof__` of it on a 64-bit machine: a size and two pointers.
-- `__cacheline_aligned`, which no file of the repository defines, is taken for no attribute.
abbrev pub header_size : ℕ
header_size = 24

abbrev pub header_align : ℕ
header_align = 8

abbrev pub page_size : ℕ
page_size = 4096

-- `freelist`; the blocks handed out; the pages got from and given back to the page allocator
pub record Heap : Type 0 where
  pub freelist : List Block
  pub handed_out : List Block
  pub taken : List Block
  pub given : List Block

-- `maybe_split`: the block, and the free list with what is left over. For a size below that of a header,
-- which only a sum that has gone round gives, the code writes the header of what is left over into that
-- of the block; the model keeps the two apart.
pub maybe_split : ℕ → ℕ → ℕ → List Block → Block × List Block
maybe_split hdr size block free =
    let leftover = block - size in
    if leb (2 * header_size) leftover
    then (record { addr = hdr; size = size }, record { addr = hdr + size; size = leftover } ∷ free)
    else (record { addr = hdr; size = block }, free)

-- `align_up`; for a power of two, `& ~(align - 1)` takes off the remainder.
pub align_up : ℕ → ℕ → ℕ
align_up size align = let padded = (size + align - 1) % 2 ^ 64 in padded - padded % align

-- the size with the header, as `guk_xmalloc` computes it
pub padded_size : ℕ → ℕ
padded_size asize = align_up ((asize + header_size) % 2 ^ 64) header_align

-- A walk that goes past a block leaves it in the list.
abbrev pub skip : Block → Option (Block × List Block) → Option (Block × List Block)
skip i none = none
skip i (some (b, rest)) = some (b, i ∷ rest)

-- The walk over the free list: the first block of at least `size` bytes, and the others.
pub find_fit : ℕ → List Block → Option (Block × List Block)
find_fit size [] = none
find_fit size (i ∷ free) = if ltb i.size size then skip i (find_fit size free) else some (i, free)

-- A block is handed out, and the caller gets the address behind the header.
abbrev pub hand_out : Block × List Block → Heap → Option ℕ × Heap
hand_out (b, free) h =
    (some (b.addr + header_size), record h { freelist = free; handed_out = b ∷ h.handed_out })

-- `xmalloc_new_page`, at the answer of `alloc_page`
pub xmalloc_new_page : Option ℕ → ℕ → Heap → Option ℕ × Heap
xmalloc_new_page none size h = (none, h)
xmalloc_new_page (some page) size h =
    hand_out (maybe_split page size page_size h.freelist)
      (record h { taken = record { addr = page; size = page_size } ∷ h.taken })

-- `xmalloc_whole_pages`, at the answer of `guk_allocate_pages`
pub xmalloc_whole_pages : Option ℕ → ℕ → Heap → Option ℕ × Heap
xmalloc_whole_pages none size h = (none, h)
xmalloc_whole_pages (some page) size h =
    let b : Block = record { addr = page; size = align_up size page_size } in
    hand_out (b, h.freelist) (record h { taken = b ∷ h.taken })

-- `guk_xmalloc` below a page: the free list, and else a new page
pub xmalloc_small : Option ℕ → ℕ → Heap → Option (Block × List Block) → Option ℕ × Heap
xmalloc_small page size h none = xmalloc_new_page page size h
xmalloc_small page size h (some (i, free)) = hand_out (maybe_split i.addr size i.size free) h

-- `guk_xmalloc`; `pages n` is the answer of the page allocator to a request of `n` pages.
pub xmalloc : (ℕ → Option ℕ) → ℕ → Heap → Option ℕ × Heap
xmalloc pages asize h =
    let size = padded_size asize in
    if leb page_size size
    then xmalloc_whole_pages (pages (align_up size page_size / page_size)) size h
    else xmalloc_small (pages 1) size h (find_fit size h.freelist)

abbrev pub same_page : Block → Block → Bool
same_page i hdr = (i.addr / page_size) == (hdr.addr / page_size)

abbrev pub keep : Block → Block × List Block → Block × List Block
keep i (hdr, free) = (hdr, i ∷ free)

-- The walk of `guk_xfree`, which joins a block with its free neighbours. After the first test has
-- succeeded the second cannot, as `hdr` lies behind `i`.
pub merge : Block → List Block → Block × List Block
merge hdr [] = (hdr, [])
merge hdr (i ∷ free) =
    let kept = keep i (merge hdr free) in
    let follows = merge (record { addr = i.addr; size = i.size + hdr.size }) free in
    let precedes = merge (record { addr = hdr.addr; size = hdr.size + i.size }) free in
    if not (same_page i hdr)
    then kept
    else if i.addr + i.size == hdr.addr
    then follows
    else if hdr.addr + hdr.size == i.addr
    then precedes
    else kept

-- What `guk_xfree` does with a block that it has joined; `none` is the `Bug` of a page that is not
-- aligned.
pub put_merged : Heap → Block × List Block → Option Heap
put_merged h (hdr, free) =
    if hdr.size == page_size
    then (if hdr.addr % page_size == 0
        then some (record h { freelist = free; given = hdr ∷ h.given })
        else none)
    else some (record h { freelist = hdr ∷ free })

-- the block of an address, and the other blocks
pub take_block : ℕ → List Block → Option (Block × List Block)
take_block hdr [] = none
take_block hdr (b ∷ blocks) =
    if b.addr == hdr then some (b, blocks) else skip b (take_block hdr blocks)

pub free_block : Heap → Option (Block × List Block) → Option Heap
free_block h none = none
free_block h (some (hdr, rest)) =
    let h1 = record h { handed_out = rest } in
    if leb page_size hdr.size
    then some (record h1 { given = hdr ∷ h.given })
    else put_merged h1 (merge hdr h.freelist)

-- `guk_xfree`; `none` is its crash at an address that is not that of a block handed out, or whose
-- header lies on another page.
pub xfree : ℕ → Heap → Option Heap
xfree p h =
    let hdr = p - header_size in
    if p == 0
    then some h
    else if not ((p / page_size) == (hdr / page_size))
    then none
    else free_block h (take_block hdr h.handed_out)

-- a `size_t` stored in an `int`, and compared with a `size_t` again
pub through_int : ℕ → ℕ
through_int n = let low = n % 2 ^ 32 in if ltb low (2 ^ 31) then low else 2 ^ 64 - 2 ^ 32 + low

-- The end of `guk_xrealloc`, which copies to the new block and frees the old one. Without a new block it
-- copies to address 0.
pub move_block : ℕ → Option ℕ × Heap → Option (ℕ × Heap)
move_block p (none, h) = none
move_block p (some result, h) = elim (xfree p h) [ none ↦ none | some h' ↦ some (result, h') ]

pub resize : (ℕ → Option ℕ) → ℕ → ℕ → Heap → Option (Block × List Block) → Option (ℕ × Heap)
resize pages p size h none = none
resize pages p size h (some (hdr, rest)) =
    if leb size (through_int (hdr.size - header_size))
    then some (p, h)
    else move_block p (xmalloc pages size h)

-- `guk_xrealloc` of an address that is not null
pub xrealloc : (ℕ → Option ℕ) → ℕ → ℕ → Heap → Option (ℕ × Heap)
xrealloc pages p size h = resize pages p size h (take_block (p - header_size) h.handed_out)
