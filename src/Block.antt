-- ===== src/Block.antt =====
-- Requests of the block front end, blk_front.c: the segments that a request to the control domain has.
pub mod Segments
pub mod Requests
pub mod Sync
mod Tests
use guestvm_guk.Base.{ℕ, zero, suc, ◌+◌, ◌-◌, max, ◌/◌, ltb, Bool, true, false, ◌==◌, if◌then◌else◌}

-- `SECTORS_PER_PAGE`
abbrev pub sectors_per_page : ℕ
sectors_per_page = 8

-- the parts of `struct blk_request` that `guk_blk_do_io` makes segments of
pub record Request : Type 0 where
  pub num_pages : ℕ
  pub start_sector : ℕ
  pub end_sector : ℕ

-- one `seg` of a request in Xen's ring
pub record Segment : Type 0 where
  pub gref : ℕ
  pub first_sect : ℕ
  pub last_sect : ℕ

abbrev pub put_segment : (ℕ → Segment) → ℕ → Segment → ℕ → Segment
put_segment seg i s j = if j == i then s else seg j

-- The loop over the middle segments, of `n` rounds from `i`. `grant j` is the reference that
-- `gnttab_grant_access` gives for page `j`.
pub middle_segments : (ℕ → ℕ) → ℕ → ℕ → (ℕ → Segment) → ℕ → Segment
middle_segments grant zero i seg = seg
middle_segments grant (suc n) i seg = middle_segments grant n (i + 1) (
    put_segment seg i (record { gref = grant i; first_sect = 0; last_sect = sectors_per_page - 1 }))

-- The segments of `guk_blk_do_io`, in a slot of the ring that holds `seg`. Behind the loop its variable
-- is the number of pages, or 1.
pub fill_segments : (ℕ → ℕ) → Request → (ℕ → Segment) → ℕ → Segment
fill_segments grant io_req seg =
    let first : Segment = record {
      gref = grant 0;
      first_sect = io_req.start_sector;
      last_sect = sectors_per_page - 1;
    } in
    let i = max 1 io_req.num_pages in
    let filled = middle_segments grant (io_req.num_pages - 1) 1 (put_segment seg 0 first) in
    if io_req.num_pages == 1
    then put_segment seg 0 (record first { last_sect = io_req.end_sector })
    else put_segment filled i (record (filled i) { last_sect = io_req.end_sector })

-- `PAGE_SIZE`
abbrev pub page_size : ℕ
page_size = 4096

-- The loop of `guk_blk_write` and `guk_blk_read` over the pages of a buffer of `size` bytes: the index of
-- the last page, and the bytes on it.
pub last_page : ℕ → ℕ → ℕ → ℕ × ℕ
last_page zero i size = (i, size)
last_page (suc fuel) i size =
    let next = last_page fuel (i + 1) (size - page_size) in
    if ltb page_size size then next else (i, size)

-- the request for `size` bytes; each round takes a byte at least
pub request_of : ℕ → Request
request_of size =
    let p = last_page size 0 size in
    record { num_pages = p.0 + 1; start_sector = 0; end_sector = p.1 / 512 - 1 }
