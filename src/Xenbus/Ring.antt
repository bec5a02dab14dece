-- ===== src/Xenbus/Ring.antt =====
-- The copies between messages and the two rings of the page that is shared with the store daemon. A ring
-- is its bytes by offset.
pub mod Chunks
pub mod Transfer
pub mod Queue
mod Tests
use guestvm_guk.Base.{
  ℕ, zero, suc, ◌+◌, ◌-◌, ◌%◌, ◌^◌, ◌≤◌, ◌<◌, ◌≡◌, Bool, true, false, min, Option, none, some, List,
  [], ◌∷◌, ◌++◌, length, take, drop, ltb, leb, ◌==◌, if◌then◌else◌,
}

-- `XENSTORE_RING_SIZE` and `MASK_XENSTORE_IDX` of Xen's headers: the free-running 32-bit indices go
-- round the ring.
pub record Wire : Type 0 where
  pub size : ℕ
  pub mask : ℕ → ℕ
  pub size_lt : size < 2 ^ 31
  pub mask_lt : (i : ℕ) → mask i < size
  pub mask_add :
      (i k : ℕ)
      → k ≤ size
      → mask ((i + k) % 2 ^ 32) ≡ (if ltb (mask i + k) size then mask i + k else mask i + k - size)

-- an index one on
abbrev pub next_index : ℕ → ℕ
next_index i = (i + 1) % 2 ^ 32

abbrev pub put_byte : (ℕ → ℕ) → ℕ → ℕ → ℕ → ℕ
put_byte ring off b j = if j == off then b else ring j

-- `memcpy` into the ring and out of it
pub copy_in : (ℕ → ℕ) → ℕ → List ℕ → ℕ → ℕ
copy_in ring off [] = ring
copy_in ring off (b ∷ bytes) = copy_in (put_byte ring off b) (off + 1) bytes

pub copy_out : (ℕ → ℕ) → ℕ → ℕ → List ℕ
copy_out ring off zero = []
copy_out ring off (suc len) = ring off ∷ copy_out ring (off + 1) len

pub total_length : List (List ℕ) → ℕ
total_length [] = 0
total_length (r ∷ reqs) = length r + total_length reqs

-- what `xb_write` finds of the ring: the indices and the bytes
pub record Requests : Type 0 where
  pub req_prod : ℕ
  pub req_cons : ℕ
  pub req : ℕ → ℕ

pub data WriteResult : Type 0 where
  bug : WriteResult
  sent : Requests → WriteResult

module _ (w : Wire) where
  pub memcpy_from_ring : (ℕ → ℕ) → ℕ → ℕ → List ℕ
  memcpy_from_ring ring off len =
      let c1 = min len (w.size - off) in copy_out ring off c1 ++ copy_out ring 0 (len - c1)

  -- The loop of `xb_write`: `pieces` starts with the one at `cur_req`, of which `req_off` bytes are in
  -- the ring, and `left` is `len - total_off`. The new `prod` and the ring are the result, and none at
  -- a read behind the last piece, or when the fuel has run out.
  pub write_loop : ℕ → List (List ℕ) → ℕ → ℕ → ℕ → (ℕ → ℕ) → Option (ℕ × (ℕ → ℕ))
  write_loop fuel pieces req_off zero prod ring = some (prod, ring)
  write_loop zero pieces req_off (suc left) prod ring = none
  write_loop (suc fuel) [] req_off (suc left) prod ring = none
  write_loop (suc fuel) (cur ∷ pieces) req_off (suc left) prod ring =
      let this_chunk = min (length cur - req_off) (w.size - w.mask prod) in
      let ring' = copy_in ring (w.mask prod) (take this_chunk (drop req_off cur)) in
      let prod' = (prod + this_chunk) % 2 ^ 32 in
      let stay =
        write_loop fuel (cur ∷ pieces) (req_off + this_chunk) (suc left - this_chunk) prod' ring' in
      let next = write_loop fuel pieces 0 (suc left - this_chunk) prod' ring' in
      if req_off + this_chunk == length cur then next else stay

  -- The end of `xb_write`, with its last check on `prod`, whose bound is a 32-bit sum. The checks on
  -- `req_off` and `total_off` before it are left out, and the consumer's index is taken to be still that
  -- of the check for room.
  abbrev pub finish : Requests → ℕ → Option (ℕ × (ℕ → ℕ)) → WriteResult
  finish q len none = bug
  finish q len (some (prod, ring)) =
      if ltb ((q.req_cons + w.size) % 2 ^ 32) prod
      then bug
      else sent (record q { req_prod = (q.req_prod + len) % 2 ^ 32; req = ring })

  -- What `xb_write` does with the ring when it holds the lock for the last time.
  pub send : List ℕ → List (List ℕ) → ℕ → Requests → WriteResult
  send header reqs len q =
      finish q len (write_loop (len + length reqs + 1) (header ∷ reqs) 0 len q.req_prod q.req)

  -- `prod + len - req_cons <= XENSTORE_RING_SIZE`
  pub has_room : ℕ → Requests → Bool
  has_room len q = leb ((q.req_prod + len + 2 ^ 32 - q.req_cons) % 2 ^ 32) w.size

  -- `xb_write`, at `q`. Without room it waits, and `later` is what it then finds behind the lock.
  -- `header` is the message header with the length filled in.
  pub xb_write : List ℕ → List (List ℕ) → Requests → Requests → WriteResult
  xb_write header reqs q later =
      let len = length header + total_length reqs in
      if ltb w.size len
      then bug
      else if has_room len q
      then send header reqs len q
      else send header reqs len later
