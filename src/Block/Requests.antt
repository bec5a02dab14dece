-- ===== src/Block/Requests.antt =====
-- Requests of the block front end on their way: the identifiers, the shadows, and the answers.
pub mod Pool
pub mod Responses
pub mod Runs
mod Tests
use guestvm_guk.Base.{
  ℕ, zero, suc, ◌+◌, ◌/◌, ◌^◌, ◌%◌, Bool, true, false, not, Option, none, some, List, [], ◌∷◌, ◌++◌,
  ltb, ◌==◌, if◌then◌else◌, length,
}
use guestvm_guk.FreeIds.{add_id_to_freelist, get_id_from_freelist}
use guestvm_guk.Block.{Request, Segment, fill_segments}

-- `MAX_DEVICES`
abbrev pub max_devices : ℕ
max_devices = 8

-- the states of `struct blk_request`
pub data Progress : Type 0 where
  blk_empty : Progress
  blk_submitted : Progress
  blk_done_success : Progress
  blk_done_error : Progress

abbrev pub is_empty : Progress → Bool
is_empty blk_empty = true
is_empty _ = false

abbrev pub is_submitted : Progress → Bool
is_submitted blk_submitted = true
is_submitted _ = false

-- `struct blk_request`, of which `request` is the address
pub record IoRequest : Type 0 where
  pub request : ℕ
  pub device : ℕ
  pub address : ℕ
  pub operation : ℕ
  pub pages : Request

-- `struct blk_shadow`
pub record Shadow : Type 0 where
  pub gref : ℕ → ℕ
  pub num_refs : ℕ
  pub free : Bool
  pub request : ℕ

-- what a request in the ring says
pub record Sent : Type 0 where
  pub id : ℕ
  pub nr_segments : ℕ
  pub sector_number : ℕ
  pub operation : ℕ
  pub seg : ℕ → Segment

-- The front end: `state` is by the address of a request, `is_ready` and `sectors` by device. The
-- requests sent, the grants ended and the callbacks made are kept in their order.
pub record Blk : Type 0 where
  pub freelist : List ℕ
  pub shadows : ℕ → Shadow
  pub state : ℕ → Progress
  pub is_ready : ℕ → Bool
  pub sectors : ℕ → ℕ
  pub sent : List Sent
  pub ended : List ℕ
  pub called : List ℕ

abbrev pub put_shadow : Blk → ℕ → Shadow → Blk
put_shadow s id sh = record s { shadows = λ j. if j == id then sh else s.shadows j }

abbrev pub put_state : Blk → ℕ → Progress → Blk
put_state s r p = record s { state = λ j. if j == r then p else s.state j }

-- `get_freelist_id` and `add_id_freelist`
abbrev pub get_freelist_id : Blk → ℕ × Blk
get_freelist_id s =
    let (id, freelist) = get_id_from_freelist s.freelist in
    (id, put_shadow (record s { freelist = freelist }) id (record (s.shadows id) { free = false }))

abbrev pub add_id_freelist : ℕ → Blk → Blk
add_id_freelist id s =
    put_shadow (record s { freelist = add_id_to_freelist id s.freelist }) id
      (record (s.shadows id) { free = true })

pub data IoResult : Type 0 where
  bug : IoResult
  enomem : Blk → IoResult
  submitted : Blk → IoResult

-- The request with identifier `id` goes into a slot of the ring that holds `slot`. `grant` is as for
-- `fill_segments`.
abbrev pub submit : (ℕ → ℕ) → (ℕ → Segment) → IoRequest → ℕ → Blk → Blk
submit grant slot io_req id s =
    let shadow : Shadow = record {
      gref = grant;
      num_refs = io_req.pages.num_pages;
      free = (s.shadows id).free;
      request = io_req.request;
    } in
    let message : Sent = record {
      id = id;
      nr_segments = io_req.pages.num_pages;
      sector_number = io_req.address / 512;
      operation = io_req.operation;
      seg = fill_segments grant io_req.pages slot;
    } in
    record (put_state (put_shadow s id shadow) io_req.request blk_submitted) {
      sent = s.sent ++ (message ∷ []);
    }

abbrev pub submit_or_fail : (ℕ → ℕ) → (ℕ → Segment) → IoRequest → ℕ × Blk → IoResult
submit_or_fail grant slot io_req (id, s) =
    if id == 0 then enomem s else submitted (submit grant slot io_req id s)

-- the first checks of `guk_blk_do_io`
abbrev pub is_sound : IoRequest → Blk → Bool
is_sound io_req s =
    if not (is_empty (s.state io_req.request))
    then false
    else if not (ltb io_req.device max_devices)
    then false
    else if not (s.is_ready io_req.device)
    then false
    else not (ltb (s.sectors io_req.device) (io_req.address / 512 + io_req.pages.end_sector))

-- `guk_blk_do_io`
pub do_io : (ℕ → ℕ) → (ℕ → Segment) → IoRequest → Blk → IoResult
do_io grant slot io_req s =
    if is_sound io_req s then submit_or_fail grant slot io_req (get_freelist_id s) else bug

-- the grants that `complete_request` ends, over `n` of them from `i`
pub grefs_of : (ℕ → ℕ) → ℕ → ℕ → List ℕ
grefs_of gref zero i = []
grefs_of gref (suc n) i = gref i ∷ grefs_of gref n (i + 1)

-- the end of a request, with the state that it comes to
abbrev pub finish_request : ℕ → Bool → Blk → Blk
finish_request id okay s =
    let sh = s.shadows id in
    let s1 = add_id_freelist id (record s { ended = s.ended ++ grefs_of sh.gref sh.num_refs 0 }) in
    record (put_state s1 sh.request (if okay then blk_done_success else blk_done_error)) {
      called = s.called ++ (sh.request ∷ []);
    }

-- One response of `blk_front_handler`; `none` is a `BUG_ON`, or an identifier behind the table.
pub respond : ℕ → Bool → Blk → Option Blk
respond id okay s =
    if not (ltb id (length s.freelist))
    then none
    else if (s.shadows id).free
    then none
    else if not (is_submitted (s.state (s.shadows id).request))
    then none
    else some (finish_request id okay s)

-- the responses that `blk_front_handler` finds in the ring, in all its rounds
pub respond_all : List (ℕ × Bool) → Blk → Option Blk
respond_all [] s = some s
respond_all ((id, okay) ∷ responses) s = elim (respond id okay s) [
  | none ↦ none
  | some s1 ↦ respond_all responses s1
]
