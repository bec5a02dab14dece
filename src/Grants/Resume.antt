-- ===== src/Grants/Resume.antt =====
-- What `gnttab_resume` makes of the free list: it runs `init_frames` again.
use guestvm_guk.Base.{
  ℕ, zero, suc, ◌+◌, ◌-◌, ◌≤◌, ◌<◌, ◌≡◌, ◌≢◌, refl, ◌∙◌, arith, get_or, set, length, length-set,
  ◌==◌, if◌then◌else◌, leb, ltb, ◌&&◌, get_or-set,
}
use guestvm_guk.Grants.{
  Grants, put_free_entry, put_range, init_frames, nr_grant_entries, nr_reserved_entries,
}

abbrev pub link : Grants → ℕ → ℕ
link g i = get_or g.gnttab_list i 0

-- One `put_free_entry`: index `ref` links to what was first, index 0 to `ref`.
link-put_free_entry :
    (g : Grants) (ref j : ℕ)
    → 0 < ref
    → j < length g.gnttab_list
    → link (put_free_entry g ref) j
      ≡ (if j == 0 then ref else if j == ref then link g 0 else link g j)
unfolding put_free_entry
link-put_free_entry g ref j pos h = ground (
  arith,
  get_or-set (set g.gnttab_list ref (get_or g.gnttab_list 0 0)) 0 j ref 0,
  length-set g.gnttab_list ref (get_or g.gnttab_list 0 0),
  get_or-set g.gnttab_list ref j (get_or g.gnttab_list 0 0) 0 h,
)

length-put_free_entry :
    (g : Grants) (ref : ℕ) → length (put_free_entry g ref).gnttab_list ≡ length g.gnttab_list
unfolding put_free_entry
length-put_free_entry g ref = length-set _ 0 ref ∙ length-set g.gnttab_list ref _

-- A range of them: index 0 links to the last, each to the one below it, and the first to what was
-- first on the list.
link-put_range :
    (n i : ℕ) (g : Grants) (j : ℕ)
    → 0 < i
    → i + n ≤ length g.gnttab_list
    → j < length g.gnttab_list
    → link (put_range n i g) j ≡ (
        if n == 0
        then link g j
        else if j == 0
        then i + n - 1
        else if j == i
        then link g 0
        else if leb i j && ltb j (i + n)
        then j - 1
        else link g j)
unfolding put_range
link-put_range zero i g j pos room h = refl
link-put_range (suc n) i g j pos room h = ground (
  arith,
  link-put_range n (i + 1) (put_free_entry g i) j,
  link-put_free_entry g i j,
  link-put_free_entry g i 0,
  length-put_free_entry g i,
)

-- After `init_frames` on a free list that is not empty, the entry of no reference that is not
-- reserved links to the end of the list.
pub init_frames-endless :
    (g : Grants) (ref : ℕ)
    → length g.gnttab_list ≡ nr_grant_entries
    → link g 0 ≢ 0
    → nr_reserved_entries ≤ ref
    → ref < nr_grant_entries
    → link (init_frames g) ref ≢ 0
unfolding init_frames
init_frames-endless g ref size some_free low high =
    ground
      (arith, link-put_range (nr_grant_entries - nr_reserved_entries) nr_reserved_entries g ref)
