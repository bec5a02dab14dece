-- ===== src/FreeIds/Stack.antt =====
-- The free list as a stack of identifiers.
use guestvm_guk.Base.{
  ℕ, zero, suc, ◌+◌, ◌-◌, ◌<◌, ◌≡◌, ◌∙◌, refl, sym, ap, subst, arith, List, [], ◌∷◌, get_or, set,
  length, length-set, get_or-set_self, Chain, Fresh, Chain-push, Chain-pop,
}
use guestvm_guk.Sched.Queue.{count}
use guestvm_guk.FreeIds.{add_id_to_freelist, get_id_from_freelist, add_ids}

-- Each identifier is positive, below `n`, and stands once.
abbrev pub Ids : ℕ → List ℕ → Type 0
Ids n [] = Unit
Ids n (id ∷ ids) = (0 < id) × (id < n) × Fresh id ids × Ids n ids

-- The array holds the stack `ids`.
pub record IsFreeList (n : ℕ) (freelist : List ℕ) (ids : List ℕ) : Type 0 where
  pub size : length freelist ≡ n
  pub links : Chain freelist 0 ids
  pub proper : Ids n ids

Fresh-zero : (n : ℕ) (ids : List ℕ) → Ids n ids → Fresh 0 ids
Fresh-zero n [] p = tt
Fresh-zero n (id ∷ ids) p = ((λ e. absurd (omega arith)), Fresh-zero n ids p.3)

pub add_id_to_freelist-push :
    (n id : ℕ) (freelist ids : List ℕ)
    → IsFreeList n freelist ids
    → 0 < id
    → id < n
    → Fresh id ids
    → IsFreeList n (add_id_to_freelist id freelist) (id ∷ ids)
unfolding add_id_to_freelist
add_id_to_freelist-push n id freelist ids v pos low fresh = record {
  size = length-set _ 0 id ∙ length-set freelist id _ ∙ v.size;
  links = (
    get_or-set_self (set freelist id (get_or freelist 0 0)) 0 id 0
        (omega (arith, length-set freelist id (get_or freelist 0 0), v.size)),
    Chain-push freelist id ids pos (omega (arith, v.size)) fresh (Fresh-zero n ids v.proper)
        v.links,
  );
  proper = (pos, low, fresh, v.proper);
}

-- Adding identifier 0 loses every other.
pub add_id_to_freelist-zero :
    (n : ℕ) (freelist ids : List ℕ)
    → 0 < n
    → IsFreeList n freelist ids
    → IsFreeList n (add_id_to_freelist 0 freelist) []
unfolding add_id_to_freelist
add_id_to_freelist-zero n freelist ids pos v = record {
  size = length-set _ 0 0 ∙ length-set freelist 0 _ ∙ v.size;
  links =
      get_or-set_self (set freelist 0 (get_or freelist 0 0)) 0 0 0
        (omega (arith, length-set freelist 0 (get_or freelist 0 0), v.size));
  proper = tt;
}

-- what taking an identifier comes to
abbrev pub Pops : ℕ → List ℕ → ℕ × List ℕ → Type 0
Pops n [] (got, freelist') = (got ≡ 0) × IsFreeList n freelist' []
Pops n (id ∷ ids) (got, freelist') = (got ≡ id) × IsFreeList n freelist' ids

pub get_id_from_freelist-Pops :
    (n : ℕ) (freelist ids : List ℕ)
    → 0 < n
    → IsFreeList n freelist ids
    → Pops n ids (get_id_from_freelist freelist)
unfolding get_id_from_freelist
get_id_from_freelist-Pops n freelist [] pos v = (
  v.links,
  record {
    size = length-set freelist 0 _ ∙ v.size;
    links =
        get_or-set_self freelist 0 (get_or freelist (get_or freelist 0 0) 0) 0
          (omega (arith, v.size))
        ∙ ap (λ i. get_or freelist i 0) v.links
        ∙ v.links;
    proper = tt;
  },
)
get_id_from_freelist-Pops n freelist (id ∷ ids) pos v = (
  v.links.0,
  record {
    size = length-set freelist 0 _ ∙ v.size;
    links =
        subst (λ i. Chain (set freelist 0 (get_or freelist i 0)) 0 ids) (sym v.links.0)
          (Chain-pop freelist id ids (omega (arith, v.size)) (Fresh-zero n ids v.proper.3)
            v.links.1);
    proper = v.proper.3;
  },
)

-- the identifiers below `i + 1`, the highest first
abbrev pub up_to : ℕ → List ℕ
up_to zero = []
up_to (suc i) = suc i ∷ up_to i

up_to-Fresh : (id i : ℕ) → i < id → Fresh id (up_to i)
up_to-Fresh id zero h = tt
up_to-Fresh id (suc i) h = ((λ e. absurd (omega arith)), up_to-Fresh id i (omega arith))

add_ids-up_to :
    (n k i : ℕ) (freelist : List ℕ)
    → i + 1 + k ≡ n
    → IsFreeList n freelist (up_to i)
    → IsFreeList n (add_ids k (i + 1) freelist) (up_to (n - 1))
unfolding add_ids
add_ids-up_to n zero i freelist e v = subst (λ j. IsFreeList n freelist (up_to j)) (omega arith) v
add_ids-up_to n (suc k) i freelist e v =
    add_ids-up_to n k (i + 1) (add_id_to_freelist (i + 1) freelist) (omega arith) (
      subst (λ l. IsFreeList n (add_id_to_freelist (i + 1) freelist) l) cons
        (add_id_to_freelist-push n (i + 1) freelist (up_to i) v (omega arith) (omega arith)
          (up_to-Fresh (i + 1) i (omega arith))))
  where
    next : (j : ℕ) → j ≡ suc i → j ∷ up_to i ≡ up_to j
    next j e = subst (λ m. m ∷ up_to i ≡ up_to m) (sym e) refl

    cons : (i + 1) ∷ up_to i ≡ up_to (i + 1)
    cons = next (i + 1) (omega arith)

-- Setting a list up from an array of zeros frees every identifier but 0, the highest on top: adding
-- identifier 0 first changes nothing.
pub add_ids-IsFreeList :
    (n : ℕ) (freelist : List ℕ)
    → 0 < n
    → length freelist ≡ n
    → ((i : ℕ) → get_or freelist i 0 ≡ 0)
    → IsFreeList n (add_ids n 0 freelist) (up_to (n - 1))
unfolding add_ids add_id_to_freelist
add_ids-IsFreeList zero freelist pos size zeros = absurd (omega arith)
add_ids-IsFreeList (suc k) freelist pos size zeros =
    add_ids-up_to (suc k) k 0 (add_id_to_freelist 0 freelist) (omega arith) (record {
      size = length-set _ 0 0 ∙ length-set freelist 0 _ ∙ size;
      links =
          get_or-set_self (set freelist 0 (get_or freelist 0 0)) 0 0 0
            (omega (arith, length-set freelist 0 (get_or freelist 0 0), size));
      proper = tt;
    })

-- An identifier that is not counted is fresh.
pub count-Fresh : (id : ℕ) (ids : List ℕ) → count id ids ≡ 0 → Fresh id ids
unfolding count
count-Fresh id [] h = tt
count-Fresh id (x ∷ ids) h = ((λ e. absurd (ground (arith, e))), count-Fresh id ids (ground arith))
