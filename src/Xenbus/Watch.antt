-- ===== src/Xenbus/Watch.antt =====
-- The watches: the list of those that are set, and the queue of changed paths of each.
pub mod Queue
mod Tests
use guestvm_guk.Base.{
  ℕ, ◌+◌, ◌-◌, ◌%◌, Bool, true, false, Option, none, some, List, [], ◌∷◌, ltb, ◌==◌, if◌then◌else◌,
}
use guestvm_guk.Strings.{same_string}

abbrev pub max_paths : ℕ
max_paths = 10

-- `struct xenbus_watch`; `paths` is by slot, and strings are their bytes with the last one 0.
pub record Watch : Type 0 where
  pub token : List ℕ
  pub path : List ℕ
  pub path_prod_idx : ℕ
  pub path_cons_idx : ℕ
  pub paths : ℕ → List ℕ
  pub thread : Option ℕ

unfoldable pub find_watch : List ℕ → List Watch → Option Watch
find_watch token [] = none
find_watch token (watch ∷ watches) =
    if same_string watch.token token then some watch else find_watch token watches

-- a change of the watch that `find_watch` finds, and its removal
pub change_watch : List ℕ → Watch → List Watch → List Watch
change_watch token new [] = []
change_watch token new (watch ∷ watches) =
    if same_string watch.token token then new ∷ watches else watch ∷ change_watch token new watches

pub delete_watch : List ℕ → List Watch → List Watch
delete_watch token [] = []
delete_watch token (watch ∷ watches) =
    if same_string watch.token token then watches else watch ∷ delete_watch token watches

-- A changed path goes to the queue of a watch; `none` is the `BUG_ON`.
pub push_path : Watch → List ℕ → Option Watch
push_path watch path =
    let slot = watch.path_prod_idx % max_paths in
    if ltb max_paths (watch.path_prod_idx - watch.path_cons_idx)
    then none
    else some (record watch {
      paths = λ j. if j == slot then path else watch.paths j;
      path_prod_idx = watch.path_prod_idx + 1;
    })

-- One round of `xenbus_read_watch`: a path, or the thread that asks is noted and blocks.
pub data Read : Type 0 where
  changed : List ℕ → Watch → Read
  blocks : Watch → Read

pub read_path : ℕ → Watch → Read
read_path current watch =
    if ltb watch.path_cons_idx watch.path_prod_idx
    then changed (watch.paths (watch.path_cons_idx % max_paths))
        (record watch { path_cons_idx = watch.path_cons_idx + 1; thread = none })
    else blocks (record watch { thread = some current })

-- the new watch of `xenbus_watch_path`
abbrev pub new_watch : List ℕ → List ℕ → Watch
new_watch path token = record {
  token = token;
  path = path;
  path_prod_idx = 0;
  path_cons_idx = 0;
  paths = λ _. [];
  thread = none;
}

-- The start of `xenbus_watch_path`; `none` is its `BUG_ON`.
pub add_watch : List ℕ → List ℕ → List Watch → Option (List Watch)
add_watch path token watches = elim (find_watch token watches) [
  | some watch ↦ none
  | none ↦ some (new_watch path token ∷ watches)
]

-- The watch event of `xenbus_thread_func`: the watches, and the thread that is woken. A token that no
-- watch has is dropped.
pub watch_event : List ℕ → List ℕ → List Watch → Option (List Watch × Option ℕ)
watch_event path token watches = elim (find_watch token watches) [
  | none ↦ some (watches, none)
  | some watch ↦ elim (push_path watch path) [
    | none ↦ none
    | some new ↦ some (change_watch token new watches, watch.thread)
  ]
]
