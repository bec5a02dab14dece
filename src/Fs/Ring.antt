-- ===== src/Fs/Ring.antt =====
-- The reservation of places in the request ring of the file system front end by threads that run at
-- the same time: each read and each `cmpxchg` is one step. The indices are counted from a start of the
-- ring at 0, and the steps go on until they would go round in their 32 bits; behind that a thread may
-- reserve with an index that it has read a whole round before.
pub mod Room
pub mod Safety
mod Tests
use guestvm_guk.Base.{ℕ, ◌+◌, ◌-◌, ◌≤◌, ◌≡◌, Bool, true, false, ◌==◌, ltb, if◌then◌else◌}

-- where a thread is: not in the code, behind its read of `req_prod_pvt`, behind the check for room with
-- the index that it has read, or between its reservation and its commit
pub data Phase : Type 0 where
  outside : Phase
  reading : ℕ → Phase
  looking : ℕ → Phase
  reserved : ℕ → Phase

-- `req_prod_pvt` and `rsp_cons` of the front end, `req_prod` of the shared ring, and its size
pub record Ring : Type 0 where
  pub size : ℕ
  pub req_prod_pvt : ℕ
  pub req_prod : ℕ
  pub rsp_cons : ℕ
  pub phase : ℕ → Phase

abbrev pub put_phase : Ring → ℕ → Phase → Ring
put_phase r t p = record r { phase = λ u. if u == t then p else r.phase u }

-- `FS_RING_FREE_REQUESTS`
abbrev pub free_requests : Ring → ℕ → ℕ
free_requests r idx = r.size - (idx - r.rsp_cons)

-- The start of `reserve_fsif_request`, or its next round: it reads `req_prod_pvt`.
unfoldable pub look : Ring → ℕ → Ring
look r t = put_phase r t (reading r.req_prod_pvt)

-- It reads `rsp_cons`: without room the thread calls the scheduler and comes back.
unfoldable pub check_room : Ring → ℕ → ℕ → Ring
check_room r t idx =
    if free_requests r idx == 0 then put_phase r t outside else put_phase r t (looking idx)

-- the `cmpxchg` of `reserve_fsif_request`
unfoldable pub reserve : Ring → ℕ → ℕ → Ring
reserve r t idx =
    if r.req_prod_pvt == idx
    then record (put_phase r t (reserved idx)) { req_prod_pvt = idx + 1 }
    else put_phase r t outside

-- the `cmpxchg` of `commit_fsif_request`, which is tried until it succeeds
unfoldable pub commit : Ring → ℕ → ℕ → Ring
commit r t idx =
    if r.req_prod == idx then record (put_phase r t outside) { req_prod = idx + 1 } else r
