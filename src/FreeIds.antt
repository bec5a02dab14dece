-- ===== src/FreeIds.antt =====
-- The identifiers of the requests of a device front end: a free list in an array, of which place 0 holds
-- the first identifier, and identifier 0 ends it. The network, block and file system front ends each
-- have these operations.
pub mod Stack
use guestvm_guk.Base.{ℕ, zero, suc, ◌+◌, List, [], ◌∷◌, get_or, set}

-- `add_id_to_freelist`, and `add_id_freelist` of the block front end
unfoldable pub add_id_to_freelist : ℕ → List ℕ → List ℕ
add_id_to_freelist id freelist = set (set freelist id (get_or freelist 0 0)) 0 id

-- `get_id_from_freelist`, and `get_freelist_id` of the block front end
unfoldable pub get_id_from_freelist : List ℕ → ℕ × List ℕ
get_id_from_freelist freelist =
    let id = get_or freelist 0 0 in (id, set freelist 0 (get_or freelist id 0))

-- the loop that sets a list up, over `n` identifiers from `i`
unfoldable pub add_ids : ℕ → ℕ → List ℕ → List ℕ
add_ids zero i freelist = freelist
add_ids (suc n) i freelist = add_ids n (i + 1) (add_id_to_freelist i freelist)
