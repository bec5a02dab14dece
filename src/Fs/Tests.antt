-- ===== src/Fs/Tests.antt =====
-- A file of three bytes that is read, names that are sent and listed, and responses in the ring.
use guestvm_guk.Base.{
  ℕ, ◌+◌, ◌-◌, ◌≤◌, ◌<◌, min, ◌≡◌, ◌∙◌, refl, ap, arith, true, false, none, some, List, [], ◌∷◌,
  ◌++◌, length, drop, take, if-true, ◌==◌,
}
use guestvm_guk.FreeIds.{add_ids, add_id_to_freelist}
use guestvm_guk.FreeIds.Stack.{IsFreeList}
use guestvm_guk.Fs.{
  Fs, put, Request, Operation, file_open, print, file_read, file_sync, fs_rename, fs_list,
  fsfront_handler, call, ask,
}
use guestvm_guk.Fs.Chunks.{fs_read, Reading}
use guestvm_guk.Fs.Answered.{BackEnd, Answered, filled, wait_for, call-Answered}
use guestvm_guk.Fs.Served.{ServesFile, IsReady, fs_read-Served}
use guestvm_guk.Fs.Handler.{fsfront_handler-endless, fsfront_handler-delivers}
use guestvm_guk.Fs.Ids.{call-IsFreeList}
use guestvm_guk.Fs.Listings.{encode, list_value, fs_list-names, fs_list-loses}
use guestvm_guk.Fs.Names.{IsName, fs_rename-Renames, Renames}
use guestvm_guk.Fs.Read.{fs_read-Copied}
use guestvm_guk.Fs.Copies.{Serves, Copied}

abbrev abc : List ℕ
abc = 97 ∷ 98 ∷ 99 ∷ []

abbrev xy : List ℕ
xy = 120 ∷ 121 ∷ []

abbrev start : Fs
start = record {
  freelist = add_ids 3 0 (0 ∷ 0 ∷ 0 ∷ []);
  page = λ i. [];
  gref = λ i. 40 + i;
  thread = λ i. 0;
  ret_val = λ i. 0;
  is_blocked = λ t. false;
  requests = [];
  responses = λ i. record { id = i + 1; ret_val = 7 };
  req_prod = 2;
  rsp_prod = 2;
  rsp_cons = 0;
  rsp_event = 1;
}

start-IsFreeList : IsFreeList 3 start.freelist (2 ∷ 1 ∷ [])
unfolding add_ids add_id_to_freelist
start-IsFreeList = record {
  size = refl;
  links = (refl, (refl, refl));
  proper = (omega arith, omega arith, (omega arith, tt), (omega arith, omega arith, tt, tt));
}

-- the last request, as a back end sees it
abbrev last_of : List Request → Request
last_of [] = record { id = 0; operation = file_sync 0 }
last_of (r ∷ []) = r
last_of (r ∷ q ∷ rest) = last_of (q ∷ rest)

last_of-append : (before : List Request) (r : Request) → last_of (before ++ (r ∷ [])) ≡ r
last_of-append [] r = refl
last_of-append (q ∷ []) r = refl
last_of-append (q ∷ p ∷ before) r = last_of-append (p ∷ before) r

abbrev answer : Operation → Fs → Fs
answer (file_read fd gref len offset) t = record t {
  ret_val = λ k. min len (3 - offset);
  page = λ k. drop offset abc;
}
answer operation t = t

abbrev server : Fs → Fs
server t = answer (last_of t.requests).operation t

server-Serves : Serves abc 5 server
server-Serves s before id gref len offset e fits =
    let r : Request = record { id = id; operation = file_read 5 gref len offset } in
    let last : last_of s.requests ≡ r = ap last_of e ∙ last_of-append before r in
    let op : (last_of s.requests).operation ≡ file_read 5 gref len offset =
      ap {A = Request} (λ q. q.operation) last in
    (
      ap (λ o. (answer o s).ret_val id) op,
      ap (λ o. take (min len (3 - offset)) ((answer o s).page id)) op,
    )

fs_read-Copied_test :
    (r : Reading) × (fs_read server 9 5 (λ j. 0) 2 1 start ≡ some r)
    × (r.ret ≡ min 2 (length abc - 1))
    × Copied abc 1 0 (min 2 (length abc - 1)) (λ j. 0) r.buf
fs_read-Copied_test =
    fs_read-Copied abc 5 server 9 (λ j. 0) 2 1 start server-Serves (omega arith) (omega arith)

abbrev one_open : Fs
one_open = record start { rsp_prod = 1 }

fsfront_handler-endless_example : fsfront_handler 6 one_open ≡ none
fsfront_handler-endless_example = fsfront_handler-endless 6 one_open (omega arith)

fsfront_handler-delivers_example :
    (s' : Fs) × (fsfront_handler 1 start ≡ some s')
    × (s'.rsp_cons ≡ 2)
    × ((i : ℕ) → 0 ≤ i → i < 2 → (s'.ret_val (i + 1) ≡ 7) × (s'.is_blocked 0 ≡ false))
fsfront_handler-delivers_example =
    fsfront_handler-delivers 0 start refl (omega arith)
      (λ i j low between high. omega (arith, between))

abc-IsName : IsName abc
abc-IsName = (omega arith, (omega arith, (omega arith, tt)))

xy-IsName : IsName xy
xy-IsName = (omega arith, (omega arith, tt))

fs_rename-Renames_example : Renames abc xy start (fs_rename (λ t. t) 9 abc xy start).1
fs_rename-Renames_example = fs_rename-Renames 9 abc xy start abc-IsName xy-IsName (omega arith)

abbrev fails : Fs → Fs
fails t = record t { ret_val = λ k. 0 }

call-IsFreeList_test :
    IsFreeList 3 (call fails 9 (λ page. page) (λ gref. file_sync 5) start).1.freelist (2 ∷ 1 ∷ [])
    × ((call fails 9 (λ page. page) (λ gref. file_sync 5) start).0
        ≡ (ask fails 9 (λ page. page) (λ gref. file_sync 5) start).1.ret_val 2)
call-IsFreeList_test =
    call-IsFreeList 3 2 (1 ∷ []) fails 9 (λ page. page) (λ gref. file_sync 5) start (omega arith)
      (λ t. refl) start-IsFreeList

-- a back end that answers with the descriptor 5
abbrev opens : BackEnd
opens r pages = (5, pages)

abbrev idle : Fs
idle = record start { rsp_cons = 2 }

call-Answered_example :
    Answered 3 2
      (1 ∷ [])
      9
      (5, filled 2 (print abc) idle)
      (call (wait_for opens) 9 (print abc) (λ gref. file_open gref 0) idle)
call-Answered_example =
    call-Answered 3 2 (1 ∷ []) opens 9 (print abc) (λ gref. file_open gref 0) idle (omega arith)
      start-IsFreeList (record { answered = refl; taken = refl })

-- a back end that has the file
abbrev reads : Operation → ℕ → BackEnd
reads (file_read fd gref len offset) id r pages =
    (min len (3 - offset), put pages id (drop offset abc))
reads operation id r pages = (0, pages)

abbrev has_file : BackEnd
has_file r pages = reads r.operation r.id r pages

has_file-ServesFile : ServesFile abc 5 has_file
has_file-ServesFile id gref len offset pages fits =
    (refl, ap (take (min len (3 - offset))) (if-true (id == id) _ _ (ground arith)))

fs_read-Served_example :
    (r : Reading) × (fs_read (wait_for has_file) 9 5 (λ j. 0) 2 1 idle ≡ some r)
    × (r.ret ≡ min 2 (length abc - 1))
    × Copied abc 1 0 (min 2 (length abc - 1)) (λ j. 0) r.buf
    × IsReady 3 2 (1 ∷ []) r.state
fs_read-Served_example =
    fs_read-Served 3 2 (1 ∷ []) abc 5 has_file 9 (λ j. 0) 2 1 idle (omega arith) has_file-ServesFile
      (omega arith) (omega arith)
      (record { idle = record { answered = refl; taken = refl }; identifiers = start-IsFreeList })

abbrev lists : BackEnd
lists r pages = (list_value 2 0 true, put pages r.id (encode (abc ∷ xy ∷ []) []))

fs_list-names_example :
    (s' : Fs) × (fs_list (wait_for lists) 9 xy 0 idle
      ≡ some (record { nr_files = 2; files = some (abc ∷ xy ∷ []); has_more = some true }, s'))
    × IsFreeList 3 s'.freelist (2 ∷ 1 ∷ [])
fs_list-names_example =
    fs_list-names 3 2 (1 ∷ []) lists 9 xy 0 idle (abc ∷ xy ∷ []) [] 0 true (omega arith)
      start-IsFreeList (record { answered = refl; taken = refl }) refl refl
      (abc-IsName, (xy-IsName, tt)) (omega arith) (omega arith) (omega arith)

abbrev finds_none : BackEnd
finds_none r pages = (0, pages)

fs_list-loses_example :
    (s' : Fs) × (fs_list (wait_for finds_none) 9 xy 0 idle
      ≡ some (record { nr_files = 0; files = none; has_more = none }, s'))
    × IsFreeList 3 s'.freelist (1 ∷ [])
fs_list-loses_example =
    fs_list-loses 3 2 (1 ∷ []) finds_none 9 xy 0 idle (omega arith) start-IsFreeList
      (record { answered = refl; taken = refl }) (omega arith)
