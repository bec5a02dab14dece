-- ===== src/Xenbus/Ids/Tests.antt =====
-- A table with two live identifiers, and the theorems at it.
use guestvm_guk.Base.{◌≡◌, refl, arith, false, ltb}
use guestvm_guk.Xenbus.Ids.{Ids, allocate_xenbus_id, release_xenbus_id, released}
use guestvm_guk.Xenbus.Ids.Laws.{
  IsTable, Allocates, allocate_xenbus_id-Allocates, release_xenbus_id-IsTable,
}

-- Identifiers 0 and 1 are live.
abbrev ids : Ids
ids = record { live = λ j. ltb j 2; nr_live_reqs = 2; probe = 1; woken = 0 }

ids-IsTable : IsTable ids
ids-IsTable = record { counted = refl; probe_lt = omega arith }

allocate_xenbus_id-Allocates_example : Allocates ids (allocate_xenbus_id ids)
allocate_xenbus_id-Allocates_example = allocate_xenbus_id-Allocates ids ids-IsTable

release_xenbus_id-IsTable_test : IsTable (released 1 ids) × ((released 1 ids).live 1 ≡ false)
unfolding release_xenbus_id
release_xenbus_id-IsTable_test =
    release_xenbus_id-IsTable 1 ids (released 1 ids) ids-IsTable (omega arith) refl
