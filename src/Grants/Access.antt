-- ===== src/Grants/Access.antt =====
-- Granting access to a page and ending it again.
use guestvm_guk.Base.{Fresh}
use guestvm_guk.Base.{
  ℕ, zero, suc, ◌+◌, ◌≤◌, ◌<◌, ◌≡◌, subst, ◌≢◌, refl, sym, ap, ◌∙◌, Bool, true, false, arith,
  Option, some, List, ◌∷◌, get_or, length, ◌==◌, if◌then◌else◌, length-set, get_or-set_self,
  get_or-set_ne, bit_or, Bool-cases, inl, inr, Option-cases, ==_iff, ℕ_discrete,
}
use guestvm_guk.Grants.{
  Entry, Grants, Flags, no_entry, get_free_entry, put_free_entry, write_entry, end_entry, set_flags,
  grant_access, in_use, end_access_loop, end_access, nr_grant_entries, nr_reserved_entries,
}
use guestvm_guk.Grants.FreeList.{Represents, get_free_entry-pop, put_free_entry-push}

abbrev pub entry_at : Grants → ℕ → Entry
entry_at g ref = get_or g.gnttab_table ref no_entry

-- The table has an entry for each reference.
abbrev pub IsFull : Grants → Type 0
IsFull g = length g.gnttab_table ≡ nr_grant_entries

suc_one : (k : ℕ) → suc k ≡ k + 1
suc_one k = omega arith

module _ (gtf : Flags) where
  -- what a grant leaves behind: the reference off the free list, its entry written, all others kept
  pub record Granted (g g' : Grants) (rest : List ℕ) (ref : ℕ) (e : Entry) : Type 0 where
    pub free_list : Represents g' rest
    pub written : entry_at g' ref ≡ e
    pub others : (i : ℕ) → i ≢ ref → entry_at g' i ≡ entry_at g i
    pub full : IsFull g'

  pub Represents-write_entry :
      (g : Grants) (ref : ℕ) (e : Entry) (refs : List ℕ)
      → Represents g refs
      → Represents (write_entry g ref e) refs
  unfolding write_entry
  Represents-write_entry g ref e refs r = record {
    size = r.size;
    links = r.links;
    proper = r.proper;
    count = r.count;
  }

  get_free_entry-table :
      (g g' : Grants) (ref : ℕ)
      → get_free_entry g ≡ some (ref, g')
      → g'.gnttab_table ≡ g.gnttab_table
  unfolding get_free_entry
  get_free_entry-table g g' ref e = ground arith

  -- `gnttab_grant_access` takes the first free reference off the free list, gives its entry the
  -- page, the domain and the flags, and changes no other entry, if there is a free reference and
  -- the table has its full size.
  pub grant_access-Granted :
      (g : Grants) (dom page : ℕ) (readonly : Bool) (ref : ℕ) (rest : List ℕ)
      → Represents g (ref ∷ rest)
      → IsFull g
      → (g' : Grants) × (grant_access gtf g dom page readonly ≡ some (ref, g'))
        × Granted g g' rest ref (record {
          flags = bit_or gtf.permit_access (if readonly then gtf.readonly else 0);
          domid = dom;
          frame = page;
        })
  unfolding grant_access write_entry
  grant_access-Granted g dom page readonly ref rest r full =
      let (g', e, r') = get_free_entry-pop g (ref ∷ rest) r in
      (
        write_entry g' ref entry,
        rw (e, grant_access),
        record {
          free_list = Represents-write_entry g' ref entry rest r';
          written = written g' e;
          others = others g' e;
          full =
              length-set g'.gnttab_table ref entry
              ∙ ap length (get_free_entry-table g g' ref e)
              ∙ full;
        },
      )
    where
      entry : Entry
      entry = record {
        flags = bit_or gtf.permit_access (if readonly then gtf.readonly else 0);
        domid = dom;
        frame = page;
      }

      written :
          (g' : Grants)
          → get_free_entry g ≡ some (ref, g')
          → entry_at (write_entry g' ref entry) ref ≡ entry
      written g' e =
          get_or-set_self g'.gnttab_table ref entry no_entry
            (ground (arith, ap length (get_free_entry-table g g' ref e), full, r.proper))

      others :
          (g' : Grants)
          → get_free_entry g ≡ some (ref, g')
          → (i : ℕ) → i ≢ ref
          → entry_at (write_entry g' ref entry) i ≡ entry_at g i
      others g' e i ne =
          get_or-set_ne g'.gnttab_table ref i entry no_entry (λ k. ne (sym k))
          ∙ ap (λ t. get_or t i no_entry) (get_free_entry-table g g' ref e)

  -- the flags that round `k` of the loop tests and expects in the table
  abbrev pub expected : ℕ → (ℕ → ℕ) → ℕ → ℕ
  expected first seen zero = first
  expected first seen (suc k) = seen k

  -- The loop comes to round `k`: no earlier round found an access, or the flags that it expected.
  abbrev pub Reaches : ℕ → (ℕ → ℕ) → ℕ → Type 0
  Reaches first seen k =
      (i : ℕ)
      → i < k
      → (in_use gtf (expected first seen i) ≡ false) × (seen i ≢ expected first seen i)

  -- how the loop ends
  abbrev pub LoopEnds : ℕ → (ℕ → ℕ) → Bool × ℕ → Type 0
  LoopEnds first seen (true, flags) =
      (k : ℕ) × Reaches first seen k
      × (flags ≡ expected first seen k)
      × (in_use gtf flags ≡ false)
      × (seen k ≡ flags)
  LoopEnds first seen (false, flags) =
      (k : ℕ) × Reaches first seen k × (flags ≡ expected first seen k) × (in_use gtf flags ≡ true)

  end_access_loop-LoopEnds :
      (first : ℕ) (seen : ℕ → ℕ) (fuel k flags : ℕ) (r : Bool × ℕ)
      → Reaches first seen k
      → flags ≡ expected first seen k
      → end_access_loop gtf fuel seen k flags ≡ some r
      → LoopEnds first seen r
  unfolding end_access_loop
  end_access_loop-LoopEnds first seen zero k flags r reaches same e = absurd (cc e)
  end_access_loop-LoopEnds first seen (suc fuel) k flags r reaches same e =
      elim (Bool-cases (in_use gtf flags)) [
        | inl busy ↦
            let found : (false, flags) ≡ r = cc (rw busy at e) in
            subst (LoopEnds first seen) found (k, reaches, same, busy)
        | inr quiet ↦ elim (Bool-cases (seen k == flags)) [
          | inl swapped ↦
              let found : (true, flags) ≡ r = cc (rw (quiet, swapped) at e) in
              subst (LoopEnds first seen) found
                (k, reaches, same, quiet, (==_iff (seen k) flags).0 swapped)
          | inr changed ↦
              end_access_loop-LoopEnds first seen fuel (k + 1) (seen k) r
                (λ i h. elim (ℕ_discrete i k) [
                  | yes last ↦
                      subst
                        (λ j.
                          (in_use gtf (expected first seen j) ≡ false)
                          × (seen j ≢ expected first seen j))
                        (sym last)
                        (
                          ap (in_use gtf) (sym same) ∙ quiet,
                          λ equal. ground (arith, changed, equal ∙ sym same),
                        )
                  | no earlier ↦ reaches i (omega (arith, earlier))
                ])
                (ap (expected first seen) (suc_one k)) (rw (quiet, changed) at e)
        ]
      ]

  -- what an answer of `gnttab_end_access` means
  abbrev pub Ended : (ℕ → ℕ) → Grants → ℕ → List ℕ → Bool → Grants → Type 0
  Ended seen g ref refs true g' =
      Represents g' (ref ∷ refs)
      × ((entry_at g' ref).flags ≡ 0)
      × ((flags : ℕ) × LoopEnds (entry_at g ref).flags seen (true, flags))
  Ended seen g ref refs false g' =
      Represents g' refs
      × ((flags : ℕ) × LoopEnds (entry_at g ref).flags seen (false, flags)
          × (g' ≡ set_flags g ref flags))

  module _ (seen : ℕ → ℕ) (g : Grants) (ref : ℕ) (refs : List ℕ) (r : Represents g refs)
      (full : IsFull g) (low : nr_reserved_entries ≤ ref) (high : ref < nr_grant_entries)
      (fresh : Fresh ref refs) where
    end_entry-Ended :
        (done : Bool) (flags : ℕ)
        → LoopEnds (entry_at g ref).flags seen (done, flags)
        → Ended seen g ref refs
            (end_entry (set_flags g ref flags) ref done).0
            (end_entry (set_flags g ref flags) ref done).1
    unfolding end_entry write_entry put_free_entry
    end_entry-Ended true flags ends =
        let g1 = set_flags g ref flags in
        let full1 : IsFull g1 = length-set g.gnttab_table ref _ ∙ full in
        (
          put_free_entry-push _ ref refs
              (Represents-write_entry g1 ref _ refs (Represents-write_entry g ref _ refs r)) low
              high fresh,
          ap (λ (e : Entry). e.flags)
              (get_or-set_self g1.gnttab_table ref _ no_entry (omega (arith, full1))),
          (flags, ends),
        )
    end_entry-Ended false flags ends = (Represents-write_entry g ref _ refs r, (flags, ends, refl))

    -- For a reference that is neither reserved nor free, and whatever the other domain writes into
    -- the flags meanwhile: when `gnttab_end_access` answers that the grant has ended, the reference
    -- is on top of the free list, its entry has no flags, and the flags that the first successful
    -- swap took out of the table showed no access; when it answers that it has not, the flags that
    -- it read or found last show one, no swap before had found the flags that it expected, the free
    -- list is as before, and the table is as the other domain has left it by then.
    pub end_access-Ended :
        (fuel : ℕ) (done : Bool) (g' : Grants)
        → end_access gtf fuel seen g ref ≡ some (done, g')
        → Ended seen g ref refs done g'
    unfolding end_access
    end_access-Ended fuel done g' e = elim (Option-cases loop) [
      | inl none_left ↦ cc (rw (none_left, end_access) at e)
      | inr ((d, flags), ended) ↦
          let same : end_entry (set_flags g ref flags) ref d ≡ (done, g') =
            cc (rw (ended, end_access) at e) in
          subst (λ (p : Bool × Grants). Ended seen g ref refs p.0 p.1) same
            (end_entry-Ended d flags (
              end_access_loop-LoopEnds (entry_at g ref).flags seen fuel 0 (entry_at g ref).flags
                (d, flags) (λ i h. absurd (omega (arith, h))) refl ended))
    ]
      where
        loop : Option (Bool × ℕ)
        loop = end_access_loop gtf fuel seen 0 (entry_at g ref).flags
