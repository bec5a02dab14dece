-- ===== src/Grants/Tests.antt =====
-- A table with one free reference, and the theorems on grants at it.
use guestvm_guk.Base.{
  ◌⊎◌, ℕ, ◌-◌, ◌≡◌, ◌≢◌, refl, true, some, arith, [], ◌∷◌, replicate, length-replicate,
}
use guestvm_guk.Grants.{
  end_transfer, cancel_loop, complete_loop, has_flag, Grants, Flags, no_entry, put_free_entry,
  get_free_entry, grant_access, in_use, end_entry, end_access, end_access_loop, set_flags,
  init_frames, nr_grant_entries, nr_reserved_entries,
}
use guestvm_guk.Grants.FreeList.{
  Represents, down_from, put_free_entry-push, get_free_entry-pop, init_frames-Represents,
}
use guestvm_guk.Grants.Access.{Granted, Ended, IsFull, grant_access-Granted, end_access-Ended}
use guestvm_guk.Grants.Transfer.{Transferred, end_transfer-Represents}
use guestvm_guk.Grants.Resume.{link, init_frames-endless}

none_free : Grants
none_free = record {
  gnttab_list = replicate 2048 0;
  gnttab_table = replicate 2048 no_entry;
  num_free = 0;
}

none_free-Represents : Represents none_free []
unfolding none_free
none_free-Represents = record {
  size = length-replicate {A = ℕ} 2048 0;
  links = refl;
  proper = tt;
  count = refl;
}

one_free : Grants
one_free = put_free_entry none_free 9

-- the flags with the bits that Xen gives them
abbrev gtf : Flags
gtf = record {
  permit_access = 1;
  accept_transfer = 2;
  readonly = 4;
  reading = 8;
  writing = 16;
  transfer_committed = 32;
  transfer_completed = 64;
}

one_free-Represents : Represents one_free (9 ∷ [])
unfolding one_free
one_free-Represents =
    put_free_entry-push none_free 9 [] none_free-Represents (omega arith) (omega arith) tt

put_free_entry-push_test : Represents one_free (9 ∷ [])
unfolding one_free
put_free_entry-push_test =
    put_free_entry-push none_free 9 [] none_free-Represents (omega arith) (omega arith) tt

get_free_entry-pop_test : (g : Grants) × (get_free_entry one_free ≡ some (9, g)) × Represents g []
get_free_entry-pop_test = get_free_entry-pop one_free (9 ∷ []) one_free-Represents

none_free-IsFull : IsFull none_free
unfolding none_free
none_free-IsFull = length-replicate 2048 no_entry

one_free-IsFull : IsFull one_free
unfolding one_free put_free_entry
one_free-IsFull = none_free-IsFull

grant_access-Granted_test :
    (g : Grants) × (grant_access gtf one_free 7 1234 true ≡ some (9, g))
    × Granted gtf one_free g [] 9 (record { flags = 5; domid = 7; frame = 1234 })
grant_access-Granted_test =
    grant_access-Granted gtf one_free 7 1234 true 9 [] one_free-Represents one_free-IsFull

-- The first swap finds flags that the other domain has changed, the second clears them.
nine_ends :
    end_access gtf 2 (λ _. 4) none_free 9 ≡ some (end_entry (set_flags none_free 9 4) 9 true)
unfolding end_access end_access_loop none_free in_use
nine_ends = refl

end_access-Ended_example :
    Ended gtf (λ _. 4) none_free 9 [] true (end_entry (set_flags none_free 9 4) 9 true).1
unfolding end_entry
end_access-Ended_example =
    end_access-Ended gtf (λ _. 4) none_free 9 [] none_free-Represents none_free-IsFull (omega arith)
      (omega arith) tt 2 true (end_entry (set_flags none_free 9 4) 9 true).1 nine_ends

init_frames-Represents_test :
    Represents
      (init_frames none_free)
      (down_from (nr_grant_entries - nr_reserved_entries) nr_reserved_entries [])
init_frames-Represents_test = init_frames-Represents none_free none_free-Represents

init_frames-endless_test : link (init_frames one_free) 100 ≢ 0
init_frames-endless_test =
    init_frames-endless one_free 100 one_free-Represents.size
      (ground (arith, one_free-Represents.links)) (omega arith) (omega arith)

abbrev left_frame : ℕ
left_frame = 77

-- the outcome of a transfer of a page, committed and completed when it is first read
end_transfer-Represents_test :
    Represents one_free (9 ∷ [])
    × ((left_frame ≡ 0) ⊎ ((left_frame ≡ left_frame) × Transferred gtf (λ _. 96) (λ _. 96)))
unfolding end_transfer cancel_loop complete_loop has_flag one_free
end_transfer-Represents_test =
    end_transfer-Represents gtf 1 (λ _. 96) (λ _. 2) (λ _. 96) left_frame left_frame none_free
      one_free 9 [] none_free-Represents (omega arith) (omega arith) tt refl
