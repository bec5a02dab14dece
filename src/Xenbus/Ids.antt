-- ===== src/Xenbus/Ids.antt =====
-- The identifiers of requests: a table of 32 entries, of which `probe` is where the next search starts.
pub mod Laws
mod Tests
use guestvm_guk.Base.{
  ℕ, zero, suc, ◌+◌, ◌-◌, ◌%◌, Bool, true, false, not, ◌||◌, Option, none, some, ltb, ◌==◌,
  if◌then◌else◌,
}

abbrev pub nr_reqs : ℕ
nr_reqs = 32

-- `req_info[].in_use`, `nr_live_reqs` and the `probe` of `allocate_xenbus_id`; `woken` counts the calls
-- of `wake_up` on those who wait for an identifier.
pub record Ids : Type 0 where
  pub live : ℕ → Bool
  pub nr_live_reqs : ℕ
  pub probe : ℕ
  pub woken : ℕ

abbrev pub mark_live : (ℕ → Bool) → ℕ → Bool → ℕ → Bool
mark_live live id b j = if j == id then b else live j

abbrev pub released : ℕ → Ids → Ids
released id s =
    let n = s.nr_live_reqs - 1 in
    record s {
      nr_live_reqs = n;
      live = mark_live s.live id false;
      woken = if n == nr_reqs - 1 || (n == 0) then s.woken + 1 else s.woken;
    }

-- `release_xenbus_id`; `none` is its `BUG_ON`.
pub release_xenbus_id : ℕ → Ids → Option Ids
release_xenbus_id id s = if not (s.live id) then none else some (released id s)

-- The search of `allocate_xenbus_id`; it stops the system when it comes round to `probe`. It has looked
-- at each entry after `fuel` rounds.
pub find_id : ℕ → (ℕ → Bool) → ℕ → ℕ → Option ℕ
find_id zero live probe o_probe = none
find_id (suc fuel) live probe o_probe =
    let next = (o_probe + 1) % nr_reqs in
    let rest = find_id fuel live probe next in
    if not (live o_probe) then some o_probe else if next == probe then none else rest

pub data Allocated : Type 0 where
  waits : Allocated
  bug : Allocated
  got : ℕ → Ids → Allocated

abbrev pub take_id : Ids → Option ℕ → Allocated
take_id s none = bug
take_id s (some id) = got id (record s {
  nr_live_reqs = s.nr_live_reqs + 1;
  live = mark_live s.live id true;
  probe = (id + 1) % nr_reqs;
})

-- `allocate_xenbus_id`, from one look at the number of live requests to the next
pub allocate_xenbus_id : Ids → Allocated
allocate_xenbus_id s =
    if ltb s.nr_live_reqs nr_reqs then take_id s (find_id nr_reqs s.live s.probe s.probe) else waits
