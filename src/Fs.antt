-- ===== src/Fs.antt =====
-- The file system front end, fs-front.c: its operations on files, each a request to the back end for
-- which the calling thread sleeps, and the handler of the responses. Numbers are the bits of the
-- source's integers. A page is the list of the bytes from its address on. `wait` stands for all that
-- happens from the commitment of a request until `schedule` returns to the thread.
pub mod Answered
pub mod Calls
pub mod Chunks
pub mod Handler
pub mod Ids
pub mod Listings
pub mod Names
pub mod Copies
pub mod Read
pub mod Ring
pub mod Served
mod Tests
use guestvm_guk.Base.{
  ℕ, zero, suc, ◌+◌, ◌-◌, ◌*◌, ◌/◌, ◌%◌, ◌^◌, Bool, true, false, ◌&&◌, Option, none, some, List, [],
  ◌∷◌, ◌++◌, ltb, leb, ◌==◌, if◌then◌else◌, length, get_or, take, drop,
}
use guestvm_guk.FreeIds.{add_id_to_freelist, get_id_from_freelist, add_ids}
use guestvm_guk.Strings.{strlen}

-- what a request asks for
pub data Operation : Type 0 where
  file_open : (gref flags : ℕ) → Operation
  file_close : (fd : ℕ) → Operation
  file_read : (fd gref len offset : ℕ) → Operation
  file_write : (fd gref len offset : ℕ) → Operation
  fstat : (fd gref : ℕ) → Operation
  file_truncate : (fd length : ℕ) → Operation
  remove : (gref : ℕ) → Operation
  rename : (old_name_offset new_name_offset gref : ℕ) → Operation
  create : (directory mode gref : ℕ) → Operation
  dir_list : (offset gref : ℕ) → Operation
  chmod : (fd mode : ℕ) → Operation
  fs_space : (gref : ℕ) → Operation
  file_sync : (fd : ℕ) → Operation
  stat : (fd gref : ℕ) → Operation

pub record Request : Type 0 where
  pub id : ℕ
  pub operation : Operation

pub record Response : Type 0 where
  pub id : ℕ
  pub ret_val : ℕ

-- An import: the members of `struct fs_request` by identifier, whether a thread is blocked, the requests
-- in the order of their commitment, and the indices and the responses of the ring by index.
pub record Fs : Type 0 where
  pub freelist : List ℕ
  pub page : ℕ → List ℕ
  pub gref : ℕ → ℕ
  pub thread : ℕ → ℕ
  pub ret_val : ℕ → ℕ
  pub is_blocked : ℕ → Bool
  pub requests : List Request
  pub responses : ℕ → Response
  pub req_prod : ℕ
  pub rsp_prod : ℕ
  pub rsp_cons : ℕ
  pub rsp_event : ℕ

abbrev pub put {ℓ} : {A : Type ℓ} → (ℕ → A) → ℕ → A → ℕ → A
put f i v j = if j == i then v else f j

abbrev pub page_size : ℕ
page_size = 4096

-- bytes that are written at the start of a page
unfoldable pub overwrite : List ℕ → List ℕ → List ℕ
overwrite bytes page = bytes ++ drop (length bytes) page

-- `sprintf` of a string into a page, which has no bound
unfoldable pub print : List ℕ → List ℕ → List ℕ
print file page = overwrite (file ++ (0 ∷ [])) page

-- an operation until the request is written: `fill` is what it writes into the page
unfoldable pub begin : ℕ → (List ℕ → List ℕ) → Fs → ℕ × Fs
begin current fill s =
    let (id, freelist) = get_id_from_freelist s.freelist in
    (
      id,
      record s {
        freelist = freelist;
        thread = put s.thread id current;
        page = put s.page id (fill (s.page id));
      },
    )

-- the request, the blocking of the thread, and the commitment
unfoldable pub send : ℕ → ℕ → Operation → Fs → Fs
send current id operation s =
    let request : Request = record { id = id; operation = operation } in
    record s {
      requests = s.requests ++ (request ∷ []);
      req_prod = s.req_prod + 1;
      is_blocked = put s.is_blocked current true;
    }

-- an operation until its response can be read, with the request's identifier
unfoldable pub ask : (Fs → Fs) → ℕ → (List ℕ → List ℕ) → (ℕ → Operation) → Fs → ℕ × Fs
ask wait current fill operation s =
    let (id, s1) = begin current fill s in (id, wait (send current id (operation (s1.gref id)) s1))

-- the end of an operation
unfoldable pub finish : ℕ → Fs → Fs
finish id s = record s { freelist = add_id_to_freelist id s.freelist }

-- an operation that returns the response's value
unfoldable pub call : (Fs → Fs) → ℕ → (List ℕ → List ℕ) → (ℕ → Operation) → Fs → ℕ × Fs
call wait current fill operation s =
    let (id, s1) = ask wait current fill operation s in (s1.ret_val id, finish id s1)

-- the value as an `int`
abbrev pub as_int : ℕ × Fs → ℕ × Fs
as_int (ret, s) = (ret % 2 ^ 32, s)

-- the two headers of `guk_fs_rename`, "old: " and "new: "
abbrev pub old_header : List ℕ
old_header = 111 ∷ 108 ∷ 100 ∷ 58 ∷ 32 ∷ []

abbrev pub new_header : List ℕ
new_header = 110 ∷ 101 ∷ 119 ∷ 58 ∷ 32 ∷ []

-- what `guk_fs_rename` prints
unfoldable pub rename_page : List ℕ → List ℕ → List ℕ → List ℕ
rename_page old_name new_name page =
    print (old_header ++ (old_name ++ (0 ∷ (new_header ++ new_name)))) page

-- Its offsets are of 16 bits.
unfoldable pub rename_request : List ℕ → List ℕ → ℕ → Operation
rename_request old_name new_name gref =
    rename (length old_header % 2 ^ 16)
      ((length old_header + length old_name + length new_header + 1) % 2 ^ 16) gref

unfoldable pub fs_rename : (Fs → Fs) → ℕ → List ℕ → List ℕ → Fs → ℕ × Fs
fs_rename wait current old_name new_name s =
    as_int (call wait current (rename_page old_name new_name) (rename_request old_name new_name) s)

abbrev pub zeros : ℕ → List ℕ
zeros zero = []
zeros (suc n) = 0 ∷ zeros n

-- what a directory listing gives: no files are the null pointer, and `has_more` may not be written
pub record Listing : Type 0 where
  pub nr_files : ℕ
  pub files : Option (List (List ℕ))
  pub has_more : Option Bool

-- The loop of `guk_fs_list`; `none` is a string that does not end.
unfoldable pub strdup_all : ℕ → List ℕ → Option (List (List ℕ))
strdup_all zero current_file = some []
strdup_all (suc n) current_file = elim (strlen current_file) [
  | none ↦ none
  | some l ↦ elim (strdup_all n (drop (l + 1) current_file)) [
    | none ↦ none
    | some files ↦ some (take l current_file ∷ files)
  ]
]

-- the end of `guk_fs_list`, from the response on
unfoldable pub list_response : ℕ → Fs → Option (Listing × Fs)
list_response id s =
    let nr_files = s.ret_val id % 2 ^ 16 in
    if nr_files == 0
    then some (record { nr_files = 0; files = none; has_more = none }, s)
    else elim (strdup_all nr_files (s.page id)) [
      | none ↦ none
      | some files ↦ some (
        record {
          nr_files = nr_files;
          files = some files;
          has_more = some (s.ret_val id / 2 ^ 48 % 2 == 1);
        },
        finish id s,
      )
    ]

unfoldable pub fs_list : (Fs → Fs) → ℕ → List ℕ → ℕ → Fs → Option (Listing × Fs)
fs_list wait current name offset s =
    let (id, s1) = ask wait current (print name) (dir_list offset) s in list_response id s1

-- the first `n` responses from an index on
unfoldable pub take_responses : ℕ → ℕ → Fs → Fs
take_responses zero cons s = s
take_responses (suc n) cons s =
    let rsp = s.responses cons in
    take_responses n (cons + 1) (record s {
      ret_val = put s.ret_val rsp.id rsp.ret_val;
      is_blocked = put s.is_blocked (s.thread rsp.id) false;
    })

-- One round of the handler: it takes the responses up to `req_prod`.
unfoldable pub handler_round : Fs → Fs
handler_round s = record (take_responses (s.req_prod - s.rsp_cons) s.rsp_cons s) {
  rsp_cons = s.req_prod;
}

-- `fsfront_handler`, while the back end does not move; the check at the end of a round asks for the next
-- event where there is nothing left.
unfoldable pub fsfront_handler : ℕ → Fs → Option Fs
fsfront_handler zero s = none
fsfront_handler (suc fuel) s =
    let s1 = handler_round s in
    let rest = fsfront_handler fuel s1 in
    if s1.rsp_prod == s1.rsp_cons then some (record s1 { rsp_event = s1.rsp_cons + 1 }) else rest

-- `alloc_request_table`: `alloc_page` and `grant` give the pages and their references; the members of a
-- request that it does not write are those of `old`.
unfoldable pub alloc_request_table : ℕ → (ℕ → List ℕ) → (ℕ → ℕ) → Fs → Option Fs
alloc_request_table nr_entries alloc_page grant old =
    if nr_entries == 0
    then none
    else some (record old {
      freelist = add_ids nr_entries 0 (zeros nr_entries);
      page = λ i. if ltb i nr_entries then alloc_page i else old.page i;
      gref = λ i. if ltb i nr_entries then grant i else old.gref i;
    })
