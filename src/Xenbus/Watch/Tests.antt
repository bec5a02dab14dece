-- ===== src/Xenbus/Watch/Tests.antt =====
-- A watch, and the theorems on its queue.
use guestvm_guk.Base.{ℕ, ◌≡◌, arith, none, some, List, [], ◌∷◌}
use guestvm_guk.Xenbus.Watch.{Watch, new_watch, push_path, read_path, changed}
use guestvm_guk.Xenbus.Watch.Queue.{
  waiting, pushed, Reads, push_path-waiting, read_path-Reads, push_path-loses,
}

abbrev path : List ℕ
path = 47 ∷ 97 ∷ 0 ∷ []

abbrev watch : Watch
watch = new_watch path (116 ∷ 0 ∷ [])

push_path-waiting_test :
    (push_path watch path ≡ some (pushed watch path)) × (waiting (pushed watch path) ≡ path ∷ [])
push_path-waiting_test = push_path-waiting watch path (omega arith) (omega arith)

read_path-Reads_test :
    Reads (pushed watch path) 3 (waiting (pushed watch path)) (read_path 3 (pushed watch path))
read_path-Reads_test = read_path-Reads (pushed watch path) 3

abbrev full_watch : Watch
full_watch = record watch { path_prod_idx = 13; path_cons_idx = 3 }

push_path-loses_test :
    (push_path full_watch path ≡ some (pushed full_watch path))
    × (read_path 5 (pushed full_watch path)
        ≡ changed path (record (pushed full_watch path) { path_cons_idx = 4; thread = none }))
push_path-loses_test = push_path-loses full_watch path 5 (omega arith)
