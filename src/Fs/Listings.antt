-- ===== src/Fs/Listings.antt =====
-- The listing of a directory.
use guestvm_guk.Base.{
  ℕ, suc, ◌+◌, ◌*◌, ◌/◌, ◌%◌, ◌^◌, ◌<◌, ◌≡◌, refl, ap, ap₂, ◌∙◌, Bool, true, false, arith, Option,
  none, some, List, [], ◌∷◌, ◌++◌, ◌==◌, if◌then◌else◌, if-true, if-false, length, drop,
  take-append,
}
use guestvm_guk.FreeIds.Stack.{IsFreeList}
use guestvm_guk.Fs.{
  Fs, dir_list, ask, finish, print, call, Listing, strdup_all, list_response, fs_list,
}
use guestvm_guk.Fs.Answered.{
  BackEnd, IsIdle, sent, filled, wait_for, wait_for-Balanced, call-Answered,
}
use guestvm_guk.Fs.Ids.{ask-Asked, finish-IsFreeList}
use guestvm_guk.Fs.Names.{IsName, strlen-name}

abbrev pub AreNames : List (List ℕ) → Type 0
AreNames [] = Unit
AreNames (name ∷ names) = IsName name × AreNames names

-- the names as the back end writes them, each with its end of string
abbrev pub encode : List (List ℕ) → List ℕ → List ℕ
encode [] tail = tail
encode (name ∷ names) tail = name ++ (0 ∷ encode names tail)

drop-name : (name rest : List ℕ) → drop (length name + 1) (name ++ (0 ∷ rest)) ≡ rest
drop-name [] rest = refl
drop-name (c ∷ name) rest =
    let e : suc (length name) + 1 ≡ suc (length name + 1) = omega arith in
    ap (λ k. drop k (c ∷ (name ++ (0 ∷ rest)))) e ∙ drop-name name rest

strdup_all-encode :
    (names : List (List ℕ)) (tail : List ℕ)
    → AreNames names
    → strdup_all (length names) (encode names tail) ≡ some names
unfolding strdup_all
strdup_all-encode [] tail p = refl
strdup_all-encode (name ∷ names) tail (p, q) =
    rw
      (
        strdup_all,
        strlen-name name (encode names tail) p,
        drop-name name (encode names tail),
        strdup_all-encode names tail q,
      )
      (ap (λ l. some (l ∷ names)) (take-append name (0 ∷ encode names tail)))

-- the value of a response to a listing: the number of names, an error of 32 bits, and whether there are more
abbrev pub list_value : ℕ → ℕ → Bool → ℕ
list_value nr_files err more = nr_files + err * 2 ^ 16 + (if more then 1 else 0) * 2 ^ 48

has_more-value :
    (n err : ℕ) (more : Bool)
    → n < 2 ^ 16
    → err < 2 ^ 32
    → (list_value n err more / 2 ^ 48 % 2 == 1) ≡ more
has_more-value n err true h k = ground (arith, h, k)
has_more-value n err false h k = ground (arith, h, k)

list_response-names :
    (names : List (List ℕ)) (tail : List ℕ) (err : ℕ) (more : Bool) (id : ℕ) (s : Fs)
    → AreNames names
    → 0 < length names
    → length names < 2 ^ 16
    → err < 2 ^ 32
    → s.page id ≡ encode names tail
    → s.ret_val id ≡ list_value (length names) err more
    → list_response id s
      ≡ some (
        record { nr_files = length names; files = some names; has_more = some more },
        finish id s,
      )
unfolding list_response
list_response-names names tail err more id s p pos few small page value =
    if-false (s.ret_val id % 2 ^ 16 == 0) _ _ (ground (arith, number, pos))
    ∙ ap listed files
    ∙ ap₂ {A = ℕ}
        (λ k m. some (record { nr_files = k; files = some names; has_more = some m }, finish id s))
        number
        (ap (λ v. v / 2 ^ 48 % 2 == 1) value ∙ has_more-value (length names) err more few small)
  where
    number : s.ret_val id % 2 ^ 16 ≡ length names
    number = ap (λ v. v % 2 ^ 16) value ∙ ground (arith, few)

    files : strdup_all (s.ret_val id % 2 ^ 16) (s.page id) ≡ some names
    files = ap₂ strdup_all number page ∙ strdup_all-encode names tail p

    listed : Option (List (List ℕ)) → Option (Listing × Fs)
    listed none = none
    listed (some l) = some (
      record {
        nr_files = s.ret_val id % 2 ^ 16;
        files = some l;
        has_more = some (s.ret_val id / 2 ^ 48 % 2 == 1);
      },
      finish id s,
    )

-- The response to a listing, in the state in which the thread reads it.
listing-answered :
    (n id : ℕ) (ids : List ℕ) (serve : BackEnd) (current : ℕ) (name : List ℕ) (offset : ℕ) (s : Fs)
    → 0 < n
    → IsFreeList n s.freelist (id ∷ ids)
    → IsIdle s
    → let result = ask (wait_for serve) current (print name) (dir_list offset) s in
      let reply = serve (sent id (dir_list offset) s) (filled id (print name) s) in
      (result.1.page result.0 ≡ reply.1 id) × (result.1.ret_val result.0 ≡ reply.0)
unfolding call finish
listing-answered n id ids serve current name offset s pos v idle =
    let a = call-Answered n id ids serve current (print name) (dir_list offset) s pos v idle in
    let asked =
      ask-Asked n id ids (wait_for serve) current (print name) (dir_list offset) s pos
        (wait_for-Balanced serve) v in
    (
      ap (ask (wait_for serve) current (print name) (dir_list offset) s).1.page asked.same
          ∙ ap (λ pages. pages id) a.pages,
      a.value,
    )

-- Where the free list of identifiers is in order and not empty, no request is on its way, and the
-- back end answers the listing with the names of some files, at least one and fewer than 2 ^ 16,
-- each without an end of string and followed by one, in the request's page, and with their number,
-- an error of 32 bits and whether there are more as the value, `guk_fs_list` with the handler
-- returns exactly these names and whether there are more, and the free list is as before.
pub fs_list-names :
    (n id : ℕ) (ids : List ℕ) (serve : BackEnd) (current : ℕ) (name : List ℕ) (offset : ℕ) (s : Fs)
    → (names : List (List ℕ)) (tail : List ℕ) (err : ℕ) (more : Bool) → 0 < n
    → IsFreeList n s.freelist (id ∷ ids)
    → IsIdle s
    → (serve (sent id (dir_list offset) s) (filled id (print name) s)).1 id ≡ encode names tail
    → (serve (sent id (dir_list offset) s) (filled id (print name) s)).0
      ≡ list_value (length names) err more
    → AreNames names
    → 0 < length names
    → length names < 2 ^ 16
    → err < 2 ^ 32
    → (s' : Fs) × (fs_list (wait_for serve) current name offset s
        ≡ some (record { nr_files = length names; files = some names; has_more = some more }, s'))
      × IsFreeList n s'.freelist (id ∷ ids)
unfolding fs_list
fs_list-names n id ids serve current name offset s names tail err more pos v idle page value p
      some_name few small =
    let result = ask (wait_for serve) current (print name) (dir_list offset) s in
    let (pages, ret_val) = listing-answered n id ids serve current name offset s pos v idle in
    (
      finish result.0 result.1,
      list_response-names names tail err more result.0 result.1 p some_name few small (pages ∙ page)
          (ret_val ∙ value),
      finish-IsFreeList n id ids s.freelist result v (
          ask-Asked n id ids (wait_for serve) current (print name) (dir_list offset) s pos
            (wait_for-Balanced serve) v),
    )

-- Where the free list of identifiers is in order and not empty, no request is on its way, and the
-- back end answers the listing with a number of files of 0, as it does on an error, `guk_fs_list`
-- with the handler returns the null pointer and has lost the identifier of its request: the free
-- list is that without it.
pub fs_list-loses :
    (n id : ℕ) (ids : List ℕ) (serve : BackEnd) (current : ℕ) (name : List ℕ) (offset : ℕ) (s : Fs)
    → 0 < n
    → IsFreeList n s.freelist (id ∷ ids)
    → IsIdle s
    → (serve (sent id (dir_list offset) s) (filled id (print name) s)).0 % 2 ^ 16 ≡ 0
    → (s' : Fs) × (fs_list (wait_for serve) current name offset s
        ≡ some (record { nr_files = 0; files = none; has_more = none }, s'))
      × IsFreeList n s'.freelist ids
unfolding fs_list list_response
fs_list-loses n id ids serve current name offset s pos v idle nothing =
    let result = ask (wait_for serve) current (print name) (dir_list offset) s in
    let (_, ret_val) = listing-answered n id ids serve current name offset s pos v idle in
    (
      result.1,
      if-true (result.1.ret_val result.0 % 2 ^ 16 == 0) _ _ (ground (arith, ret_val, nothing)),
      (ask-Asked n id ids (wait_for serve) current (print name) (dir_list offset) s pos
          (wait_for-Balanced serve) v).rest,
    )
