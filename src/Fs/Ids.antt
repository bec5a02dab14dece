-- ===== src/Fs/Ids.antt =====
-- The identifiers of the requests of files.
use guestvm_guk.Base.{
  ℕ, zero, suc, ◌-◌, ◌<◌, ◌≡◌, refl, sym, ap, subst, arith, some, List, ◌∷◌, ◌==◌, ltb, if-true,
  if-false, length, get_or,
}
use guestvm_guk.FreeIds.{add_id_to_freelist}
use guestvm_guk.FreeIds.Stack.{
  IsFreeList, get_id_from_freelist-Pops, add_id_to_freelist-push, up_to, add_ids-IsFreeList,
}
use guestvm_guk.Fs.{Fs, Operation, begin, send, ask, finish, call, alloc_request_table, zeros}

-- While the thread sleeps, the identifiers that others take come back.
abbrev pub Balanced : (Fs → Fs) → Type 0
Balanced wait = (t : Fs) → (wait t).freelist ≡ t.freelist

-- the request with the first free identifier has been asked
pub record Asked (n id : ℕ) (ids : List ℕ) (result : ℕ × Fs) : Type 0 where
  pub same : result.0 ≡ id
  pub rest : IsFreeList n result.1.freelist ids

pub ask-Asked :
    (n id : ℕ) (ids : List ℕ) (wait : Fs → Fs) (current : ℕ) (fill : List ℕ → List ℕ)
    → (operation : ℕ → Operation) (s : Fs) → 0 < n
    → Balanced wait
    → IsFreeList n s.freelist (id ∷ ids)
    → Asked n id ids (ask wait current fill operation s)
unfolding ask begin send
ask-Asked n id ids wait current fill operation s pos balanced v =
    let (same, rest) = get_id_from_freelist-Pops n s.freelist (id ∷ ids) pos v in
    record { same = same; rest = subst (λ l. IsFreeList n l ids) (sym (balanced _)) rest }

pub finish-IsFreeList :
    (n id : ℕ) (ids freelist : List ℕ) (result : ℕ × Fs)
    → IsFreeList n freelist (id ∷ ids)
    → Asked n id ids result
    → IsFreeList n (finish result.0 result.1).freelist (id ∷ ids)
unfolding finish
finish-IsFreeList n id ids freelist (got, s1) v a =
    subst (λ k. IsFreeList n (add_id_to_freelist k s1.freelist) (id ∷ ids)) (sym a.same)
      (add_id_to_freelist-push n id s1.freelist ids a.rest v.proper.0 v.proper.1 v.proper.2)

-- An operation returns the value of the response to its request, and leaves the free list as it was, where
-- the identifiers that others take meanwhile come back.
pub call-IsFreeList :
    (n id : ℕ) (ids : List ℕ) (wait : Fs → Fs) (current : ℕ) (fill : List ℕ → List ℕ)
    → (operation : ℕ → Operation) (s : Fs) → 0 < n
    → Balanced wait
    → IsFreeList n s.freelist (id ∷ ids)
    → IsFreeList n (call wait current fill operation s).1.freelist (id ∷ ids)
      × ((call wait current fill operation s).0 ≡ (ask wait current fill operation s).1.ret_val id)
unfolding call
call-IsFreeList n id ids wait current fill operation s pos balanced v =
    let a = ask-Asked n id ids wait current fill operation s pos balanced v in
    (
      finish-IsFreeList n id ids s.freelist (ask wait current fill operation s) v a,
      ap (λ k. (ask wait current fill operation s).1.ret_val k) a.same,
    )

-- What holds of every value that the back end answers holds of the one that is read.
pub ask-ret_val :
    (wait : Fs → Fs) (current : ℕ) (fill : List ℕ → List ℕ) (operation : ℕ → Operation) (s : Fs)
    → (P : ℕ → Type 0) → ((t : Fs) (k : ℕ) → P ((wait t).ret_val k))
    → P ((ask wait current fill operation s).1.ret_val (ask wait current fill operation s).0)
unfolding ask
ask-ret_val wait current fill operation s P h = h _ _

length-zeros : (n : ℕ) → length (zeros n) ≡ n
length-zeros zero = omega arith
length-zeros (suc n) = omega (arith, length-zeros n)

get_or-zeros : (n i : ℕ) → get_or (zeros n) i 0 ≡ 0
get_or-zeros zero i = refl
get_or-zeros (suc n) zero = refl
get_or-zeros (suc n) (suc i) = get_or-zeros n i

-- A new table has every positive identifier free, and the pages and grants given for it.
pub alloc_request_table-IsFreeList :
    (n : ℕ) (alloc_page : ℕ → List ℕ) (grant : ℕ → ℕ) (old : Fs)
    → 0 < n
    → (s : Fs) × (alloc_request_table n alloc_page grant old ≡ some s)
      × IsFreeList n s.freelist (up_to (n - 1))
      × ((i : ℕ) → i < n → (s.gref i ≡ grant i) × (s.page i ≡ alloc_page i))
unfolding alloc_request_table
alloc_request_table-IsFreeList n alloc_page grant old pos = (
  _,
  if-false (n == 0) _ _ (ground arith),
  add_ids-IsFreeList n (zeros n) pos (length-zeros n) (get_or-zeros n),
  λ i h. (if-true (ltb i n) _ _ (ground (arith, h)), if-true (ltb i n) _ _ (ground (arith, h))),
)
