-- ===== src/Grants/FreeList.antt =====
-- The free list as a stack of references.
use guestvm_guk.Base.{
  ℕ, zero, suc, ◌+◌, ◌-◌, ◌≤◌, ◌<◌, ◌≡◌, ◌∙◌, arith, none, some, List, [], ◌∷◌, get_or, set, length,
  length-set, get_or-set_self,
}
use guestvm_guk.Base.{Chain, Fresh, Chain-push, Chain-pop}
use guestvm_guk.Grants.{
  Grants, put_free_entry, get_free_entry, put_range, init_frames, nr_grant_entries,
  nr_reserved_entries,
}

-- Each reference is one that may be granted, and stands once.
abbrev pub Grantable : List ℕ → Type 0
Grantable [] = Unit
Grantable (r ∷ refs) =
    (nr_reserved_entries ≤ r) × (r < nr_grant_entries) × Fresh r refs × Grantable refs

-- The free list of `g` is the stack `refs`.
pub record Represents (g : Grants) (refs : List ℕ) : Type 0 where
  pub size : length g.gnttab_list ≡ nr_grant_entries
  pub links : Chain g.gnttab_list 0 refs
  pub proper : Grantable refs
  pub count : g.num_free ≡ length refs

Fresh-zero : (refs : List ℕ) → Grantable refs → Fresh 0 refs
Fresh-zero [] p = tt
Fresh-zero (r ∷ refs) p = ((λ e. absurd (omega arith)), Fresh-zero refs p.3)

-- `put_free_entry` pushes a reference that is neither reserved nor free on the stack that the free
-- list represents.
pub put_free_entry-push :
    (g : Grants) (ref : ℕ) (refs : List ℕ)
    → Represents g refs
    → nr_reserved_entries ≤ ref
    → ref < nr_grant_entries
    → Fresh ref refs
    → Represents (put_free_entry g ref) (ref ∷ refs)
unfolding put_free_entry
put_free_entry-push g ref refs r low high fresh = record {
  size = length-set _ 0 ref ∙ length-set g.gnttab_list ref _ ∙ r.size;
  links = (
    get_or-set_self (set g.gnttab_list ref (get_or g.gnttab_list 0 0)) 0 ref 0
        (omega (arith, length-set g.gnttab_list ref (get_or g.gnttab_list 0 0), r.size)),
    Chain-push g.gnttab_list ref refs (omega arith) (omega (arith, r.size)) fresh
        (Fresh-zero refs r.proper) r.links,
  );
  proper = (low, high, fresh, r.proper);
  count = omega (arith, r.count);
}

-- what taking a reference off the stack `refs` comes to
abbrev pub Pops : Grants → List ℕ → Type 0
Pops g [] = get_free_entry g ≡ none
Pops g (ref ∷ rest) = (g' : Grants) × (get_free_entry g ≡ some (ref, g')) × Represents g' rest

-- `get_free_entry` pops the first reference of the stack that the free list represents, and stops
-- the domain if there is none.
pub get_free_entry-pop : (g : Grants) (refs : List ℕ) → Represents g refs → Pops g refs
unfolding get_free_entry
get_free_entry-pop g [] r = ground (arith, r.count)
get_free_entry-pop g (ref ∷ rest) r = (
  record g {
    gnttab_list = set g.gnttab_list 0 (get_or g.gnttab_list ref 0);
    num_free = g.num_free - 1;
  },
  ground (arith, r.count, r.links.0),
  record {
    size = length-set g.gnttab_list 0 _ ∙ r.size;
    links =
        Chain-pop g.gnttab_list ref rest (omega (arith, r.size)) (Fresh-zero rest r.proper.3)
          r.links.1;
    proper = r.proper.3;
    count = omega (arith, r.count);
  },
)

-- the references from `i + n - 1` down to `i`, on top of `refs`
abbrev pub down_from : ℕ → ℕ → List ℕ → List ℕ
down_from zero i refs = refs
down_from (suc n) i refs = down_from n (i + 1) (i ∷ refs)

put_range-Represents :
    (n i : ℕ) (g : Grants) (refs : List ℕ)
    → Represents g refs
    → nr_reserved_entries ≤ i
    → i + n ≤ nr_grant_entries
    → ((r : ℕ) → i ≤ r → Fresh r refs)
    → Represents (put_range n i g) (down_from n i refs)
unfolding put_range
put_range-Represents zero i g refs r low high fresh = r
put_range-Represents (suc n) i g refs r low high fresh =
    put_range-Represents n (i + 1) (put_free_entry g i) (i ∷ refs)
      (put_free_entry-push g i refs r low (omega arith) (fresh i (omega arith))) (omega arith)
      (omega arith) (λ s h. ((λ e. absurd (omega arith)), fresh s (omega arith)))

-- `init_frames` on an empty free list makes every reference that is not reserved free, once, the
-- highest on top.
pub init_frames-Represents :
    (g : Grants)
    → Represents g []
    → Represents
        (init_frames g)
        (down_from (nr_grant_entries - nr_reserved_entries) nr_reserved_entries [])
unfolding init_frames
init_frames-Represents g r =
    put_range-Represents _ nr_reserved_entries g [] r (omega arith) (omega arith) (λ _ _. tt)
