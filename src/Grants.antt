-- ===== src/Grants.antt =====
-- gnttab.c: the table of grants to other domains, and the list of its free entries, which is threaded
-- through `gnttab_list`: index 0 holds the first free reference, and index `ref` the one after `ref`.
pub mod FreeList
pub mod Access
pub mod Resume
pub mod Transfer
mod Tests
use guestvm_guk.Base.{
  ℕ, zero, suc, ◌+◌, ◌-◌, Bool, true, false, not, Option, none, some, List, get_or, set, ◌==◌,
  if◌then◌else◌, bit_and, bit_or,
}

-- `grant_entry_t`
pub record Entry : Type 0 where
  pub flags : ℕ
  pub domid : ℕ
  pub frame : ℕ

pub record Grants : Type 0 where
  pub gnttab_list : List ℕ
  pub gnttab_table : List Entry
  pub num_free : ℕ

abbrev pub nr_reserved_entries : ℕ
nr_reserved_entries = 8

-- `NR_GRANT_FRAMES * PAGE_SIZE / sizeof(grant_entry_t)`
abbrev pub nr_grant_entries : ℕ
nr_grant_entries = 2048

pub put_free_entry : Grants → ℕ → Grants
put_free_entry g ref = record g {
  gnttab_list = set (set g.gnttab_list ref (get_or g.gnttab_list 0 0)) 0 ref;
  num_free = g.num_free + 1;
}

-- `none` is the `BUG_ON(num_free < 0)`.
pub get_free_entry : Grants → Option (ℕ × Grants)
get_free_entry g =
    let ref = get_or g.gnttab_list 0 0 in
    if g.num_free == 0
    then none
    else some (
      ref,
      record g {
        gnttab_list = set g.gnttab_list 0 (get_or g.gnttab_list ref 0);
        num_free = g.num_free - 1;
      },
    )

-- the flags of a grant entry, which Xen's headers define
pub record Flags : Type 0 where
  pub permit_access : ℕ
  pub accept_transfer : ℕ
  pub readonly : ℕ
  pub reading : ℕ
  pub writing : ℕ
  pub transfer_committed : ℕ
  pub transfer_completed : ℕ

abbrev pub no_entry : Entry
no_entry = record { flags = 0; domid = 0; frame = 0 }

-- a write to one entry of the table
pub write_entry : Grants → ℕ → Entry → Grants
write_entry g ref e = record g { gnttab_table = set g.gnttab_table ref e }

-- what the other domain has left in the flags of an entry
abbrev pub set_flags : Grants → ℕ → ℕ → Grants
set_flags g ref flags =
    write_entry g ref (record (get_or g.gnttab_table ref no_entry) { flags = flags })

-- What `gnttab_end_access` does when its loop has ended.
pub end_entry : Grants → ℕ → Bool → Bool × Grants
end_entry g ref false = (false, g)
end_entry g ref true =
    let entry = get_or g.gnttab_table ref no_entry in
    (true, put_free_entry (write_entry g ref (record entry { flags = 0 })) ref)

module _ (gtf : Flags) where
  -- `gnttab_grant_access`; `is_readonly` is the argument `readonly`, 0 or 1.
  pub grant_access : Grants → ℕ → ℕ → Bool → Option (ℕ × Grants)
  grant_access g dom page is_readonly = elim (get_free_entry g) [
    | none ↦ none
    | some (ref, g') ↦ some (
      ref,
      write_entry g' ref (record {
        flags = bit_or gtf.permit_access (if is_readonly then gtf.readonly else 0);
        domid = dom;
        frame = page;
      }),
    )
  ]

  -- `gnttab_grant_transfer`
  pub grant_transfer : Grants → ℕ → ℕ → Option (ℕ × Grants)
  grant_transfer g dom pfn = elim (get_free_entry g) [
    | none ↦ none
    | some (ref, g') ↦
        some (
          ref,
          write_entry g' ref (record { flags = gtf.accept_transfer; domid = dom; frame = pfn }),
        )
  ]

  -- `flags & (GTF_reading|GTF_writing)` is not zero
  pub in_use : ℕ → Bool
  in_use flags = not (bit_and flags (bit_or gtf.reading gtf.writing) == 0)

  -- The loop of `gnttab_end_access`, with the flags at which it ends. The other domain may change the
  -- flags at any time: `seen k` is what the `k`-th `cmpxchg` finds in the table. `none` means that the fuel
  -- ran out.
  pub end_access_loop : ℕ → (ℕ → ℕ) → ℕ → ℕ → Option (Bool × ℕ)
  end_access_loop zero seen k flags = none
  end_access_loop (suc fuel) seen k flags =
      let again : Option (Bool × ℕ) = end_access_loop fuel seen (k + 1) (seen k) in
      if in_use flags
      then some (false, flags)
      else if seen k == flags
      then some (true, flags)
      else again

  -- `gnttab_end_access`: false leaves the flags of the other domain, true clears them and frees the
  -- reference.
  pub end_access : ℕ → (ℕ → ℕ) → Grants → ℕ → Option (Bool × Grants)
  end_access fuel seen g ref =
      elim (end_access_loop fuel seen 0 (get_or g.gnttab_table ref no_entry).flags) [
        | none ↦ none
        | some (done, flags) ↦ some (end_entry (set_flags g ref flags) ref done)
      ]

  -- `flags & flag` is not zero
  pub has_flag : ℕ → ℕ → Bool
  has_flag flag flags = not (bit_and flags flag == 0)

  -- The first loop of `gnttab_end_transfer`: `read k` is what its `k`-th round reads, `swap k` what the
  -- `cmpxchg` of that round finds. The flags that show a transfer are the result, or none if the grant
  -- has been taken back. No result means that the fuel ran out.
  pub cancel_loop : ℕ → (ℕ → ℕ) → (ℕ → ℕ) → ℕ → Option (Option ℕ)
  cancel_loop zero read swap k = none
  cancel_loop (suc fuel) read swap k =
      let again : Option (Option ℕ) = cancel_loop fuel read swap (k + 1) in
      if has_flag gtf.transfer_committed (read k)
      then some (some (read k))
      else if swap k == read k
      then some none
      else again

  -- The second loop, which waits for the end of the transfer; `late k` is what it reads.
  pub complete_loop : ℕ → (ℕ → ℕ) → ℕ → ℕ → Option ℕ
  complete_loop zero late k flags = none
  complete_loop (suc fuel) late k flags =
      let again : Option ℕ = complete_loop fuel late (k + 1) (late k) in
      if has_flag gtf.transfer_completed flags then some flags else again

  -- `gnttab_end_transfer`; `frame` is what the other domain has left in the entry.
  pub end_transfer : ℕ → (ℕ → ℕ) → (ℕ → ℕ) → (ℕ → ℕ) → ℕ → Grants → ℕ → Option (ℕ × Grants)
  end_transfer fuel read swap late frame g ref = elim (cancel_loop fuel read swap 0) [
    | none ↦ none
    | some none ↦ some (0, (end_entry g ref true).1)
    | some (some flags) ↦ elim (complete_loop fuel late 0 flags) [
      | none ↦ none
      | some done ↦ some (frame, put_free_entry g ref)
    ]
  ]

-- The loop of `init_frames`: the `n` references from `i` on go to the free list.
pub put_range : ℕ → ℕ → Grants → Grants
put_range zero i g = g
put_range (suc n) i g = put_range n (i + 1) (put_free_entry g i)

-- What `init_frames` does to the list; the rest of it asks Xen for the frames of the table.
pub init_frames : Grants → Grants
init_frames = put_range (nr_grant_entries - nr_reserved_entries) nr_reserved_entries
