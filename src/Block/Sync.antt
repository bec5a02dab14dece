-- ===== src/Block/Sync.antt =====
-- The synchronous calls of the block front end, `guk_blk_write` and `guk_blk_read`. `wait` is all that
-- happens until the thread's completion has come; `pages` are the bytes of the pages of the request then.
use guestvm_guk.Base.{
  ℕ, zero, suc, ◌+◌, ◌-◌, ◌/◌, ◌%◌, ◌≤◌, ◌≡◌, refl, sym, ◌∙◌, subst, Bool, true, false, not, arith,
  Option, none, some, ltb, ◌==◌, if◌then◌else◌, if-true, if-false, Bool-cases, inl, inr,
}
use guestvm_guk.Block.{Segment, page_size, last_page, request_of}
use guestvm_guk.Block.Requests.{
  Progress, blk_empty, blk_done_success, IoRequest, Blk, put_state, bug, enomem, submitted, do_io,
}

abbrev is_success : Progress → Bool
is_success blk_done_success = true
is_success _ = false

-- the request of a call, at an address
abbrev pub sync_request : ℕ → ℕ → ℕ → ℕ → ℕ → IoRequest
sync_request request device address operation size = record {
  request = request;
  device = device;
  address = address;
  operation = operation;
  pages = request_of size;
}

-- the value to return: the number of sectors, or `none` for -1
abbrev sectors_of : ℕ → ℕ → Blk → Option ℕ
sectors_of request size s = if is_success (s.state request) then some (size / 512) else none

-- `none` is a `BUG_ON`.
pub blk_write :
    (ℕ → ℕ)
    → (ℕ → Segment)
    → (Blk → Blk)
    → (request device address operation size : ℕ) → Blk
    → Option (Option ℕ × Blk)
blk_write grant slot wait request device address operation size s =
    let io_req = sync_request request device address operation size in
    if not (io_req.address % 512 == 0)
    then none
    else if not (size % 512 == 0)
    then none
    else elim (do_io grant slot io_req (put_state s io_req.request blk_empty)) [
      | bug ↦ none
      | enomem s1 ↦ some (none, s1)
      | submitted s1 ↦ some (sectors_of io_req.request size (wait s1), wait s1)
    ]

-- what `guk_blk_read` leaves in the caller's buffer: the pages are the buffer, or are copied into it for
-- the size that the loop over the pages has left
abbrev pub read_into : Bool → ℕ → (ℕ → ℕ) → (ℕ → ℕ) → ℕ → ℕ
read_into is_aligned size pages buf j =
    if is_aligned then pages j else if ltb j (last_page size 0 size).1 then pages j else buf j

pub blk_read :
    (ℕ → ℕ)
    → (ℕ → Segment)
    → (Blk → Blk)
    → (request device address operation size : ℕ) → Bool
    → (pages buf : ℕ → ℕ) → Blk
    → Option (Option ℕ × (ℕ → ℕ) × Blk)
blk_read grant slot wait request device address operation size is_aligned pages buf s =
    let io_req = sync_request request device address operation size in
    if not (io_req.address % 512 == 0)
    then none
    else if not (size % 512 == 0)
    then none
    else elim (do_io grant slot io_req (put_state s io_req.request blk_empty)) [
      | bug ↦ none
      | enomem s1 ↦ some (none, buf, s1)
      | submitted s1 ↦
          some
            (sectors_of io_req.request size (wait s1), read_into is_aligned size pages buf, wait s1)
    ]

last_page-fits : (fuel i size : ℕ) → size ≤ fuel → (last_page fuel i size).1 ≤ page_size
unfolding last_page
last_page-fits zero i size h = omega arith
last_page-fits (suc fuel) i size h = elim (Bool-cases (ltb page_size size)) [
  | inl more ↦
      subst {A = ℕ × ℕ} (λ p. p.1 ≤ page_size) (sym (if-true (ltb page_size size) _ _ more))
        (last_page-fits fuel (i + 1) (size - page_size) (ground (arith, more)))
  | inr last ↦
      subst {A = ℕ × ℕ} (λ p. p.1 ≤ page_size) (sym (if-false (ltb page_size size) _ _ last))
        (ground (arith, last))
]

-- A read into a buffer that is not aligned changes at most its first page, however many are read.
pub blk_read-short :
    (grant : ℕ → ℕ) (slot : ℕ → Segment) (wait : Blk → Blk)
    → (request device address operation size : ℕ) (pages buf : ℕ → ℕ) (s s1 : Blk)
    → address % 512 ≡ 0
    → size % 512 ≡ 0
    → do_io grant slot
        (sync_request request device address operation size)
        (put_state s request blk_empty)
      ≡ submitted s1
    → (buf' : ℕ → ℕ) × (blk_read grant slot wait request device address operation size false pages
          buf s
        ≡ some (sectors_of request size (wait s1), buf', wait s1))
      × ((j : ℕ) → page_size ≤ j → buf' j ≡ buf j)
unfolding blk_read
blk_read-short grant slot wait request device address operation size pages buf s s1 at whole sent =
    (
      read_into false size pages buf,
      if-false (not (address % 512 == 0)) _ _ (ground (arith, at))
          ∙ if-false (not (size % 512 == 0)) _ _ (ground (arith, whole))
          ∙ rw sent refl,
      λ j h.
          if-false (ltb j (last_page size 0 size).1) _ _
            (ground (arith, h, last_page-fits size 0 size (omega arith))),
    )
