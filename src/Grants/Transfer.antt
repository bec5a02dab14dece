-- ===== src/Grants/Transfer.antt =====
-- What the end of a transfer leaves behind.
use guestvm_guk.Base.{Fresh}
use guestvm_guk.Base.{
  ℕ, zero, suc, ◌+◌, ◌≤◌, ◌<◌, ◌≡◌, ◌⊎◌, refl, sym, ◌∙◌, subst, true, arith, none, some, List, ◌∷◌,
  ◌==◌, if-true, if-false, Bool-cases, Option-cases, inl, inr,
}
use guestvm_guk.Grants.{
  Grants, Flags, put_free_entry, end_entry, has_flag, cancel_loop, complete_loop, end_transfer,
  nr_reserved_entries, nr_grant_entries,
}
use guestvm_guk.Grants.FreeList.{Represents, put_free_entry-push}
use guestvm_guk.Grants.Access.{Represents-write_entry}

module _ (gtf : Flags) where
  -- The second loop ends at flags that show the end of the transfer, the first ones or some that it read.
  complete_loop-completed :
      (fuel : ℕ) (late : ℕ → ℕ) (k flags done : ℕ)
      → complete_loop gtf fuel late k flags ≡ some done
      → (has_flag gtf gtf.transfer_completed flags ≡ true)
        ⊎ ((j : ℕ) × (has_flag gtf gtf.transfer_completed (late j) ≡ true))
  unfolding complete_loop
  complete_loop-completed zero late k flags done e = absurd (ground arith)
  complete_loop-completed (suc fuel) late k flags done e =
      elim (Bool-cases (has_flag gtf gtf.transfer_completed flags)) [
        | inl completed ↦ inl completed
        | inr waits ↦
            elim (complete_loop-completed fuel late (k + 1) (late k) done
              (sym (if-false _ _ _ waits) ∙ e)) [ inl now ↦ inr (k, now) | inr later ↦ inr later ]
      ]

  cancel_loop-committed :
      (fuel : ℕ) (read swap : ℕ → ℕ) (k flags : ℕ)
      → cancel_loop gtf fuel read swap k ≡ some (some flags)
      → (j : ℕ) × (read j ≡ flags) × (has_flag gtf gtf.transfer_committed (read j) ≡ true)
  unfolding cancel_loop
  cancel_loop-committed zero read swap k flags e = absurd (ground arith)
  cancel_loop-committed (suc fuel) read swap k flags e =
      elim (Bool-cases (has_flag gtf gtf.transfer_committed (read k))) [
        | inl committed ↦
            let same : read k ≡ flags = cc (sym (if-true _ _ _ committed) ∙ e) in
            (k, same, committed)
        | inr uncommitted ↦ elim (Bool-cases (swap k == read k)) [
          | inl same ↦ absurd (ground arith)
          | inr changed ↦
              cancel_loop-committed fuel read swap (k + 1) flags
                (sym (if-false _ _ _ uncommitted ∙ if-false _ _ _ changed) ∙ e)
        ]
      ]

  -- Flags that were read showed a transfer, and these or later ones its end.
  abbrev pub Transferred : (ℕ → ℕ) → (ℕ → ℕ) → Type 0
  Transferred read late =
      (j : ℕ) × (has_flag gtf gtf.transfer_committed (read j) ≡ true)
      × ((has_flag gtf gtf.transfer_completed (read j) ≡ true)
          ⊎ ((i : ℕ) × (has_flag gtf gtf.transfer_completed (late i) ≡ true)))

  -- For a reference that is neither reserved nor free, and whatever the other domain writes into
  -- the flags: where `gnttab_end_transfer` returns, the reference is on top of the free list, and
  -- the result is 0, or it is the frame that the other domain has left and flags that were read
  -- showed a transfer, and these or later ones its end.
  pub end_transfer-Represents :
      (fuel : ℕ) (read swap late : ℕ → ℕ) (frame r : ℕ) (g g' : Grants) (ref : ℕ) (refs : List ℕ)
      → Represents g refs
      → nr_reserved_entries ≤ ref
      → ref < nr_grant_entries
      → Fresh ref refs
      → end_transfer gtf fuel read swap late frame g ref ≡ some (r, g')
      → Represents g' (ref ∷ refs) × ((r ≡ 0) ⊎ ((r ≡ frame) × Transferred read late))
  unfolding end_transfer end_entry
  end_transfer-Represents fuel read swap late frame r g g' ref refs v low high fresh e =
      elim (Option-cases (cancel_loop gtf fuel read swap 0)) [
        | inl none_left ↦ absurd (ground (arith, none_left))
        | inr (none, cancelled) ↦
            (let same : (0, (end_entry g ref true).1) ≡ (r, g') =
                cc (rw (cancelled, end_transfer) at e) in
              subst (λ (p : ℕ × Grants). Outcome p) same
                (
                  put_free_entry-push _ ref refs (Represents-write_entry gtf g ref _ refs v) low
                      high fresh,
                  inl refl,
                ))
        | inr (some flags, committed) ↦ (elim (Option-cases (complete_loop gtf fuel late 0 flags)) [
          | inl waits ↦ absurd (ground (arith, committed, waits))
          | inr (done, ended) ↦
              let same : (frame, put_free_entry g ref) ≡ (r, g') =
                cc (rw (committed, ended, end_transfer) at e) in
              let (j, seen, shows) = cancel_loop-committed fuel read swap 0 flags committed in
              subst (λ (p : ℕ × Grants). Outcome p) same
                (
                  put_free_entry-push g ref refs v low high fresh,
                  inr (
                    refl,
                    (j, shows, rw seen (complete_loop-completed fuel late 0 flags done ended)),
                  ),
                )
        ])
      ]
    where
      Outcome : ℕ × Grants → Type 0
      Outcome (r1, g1) =
          Represents g1 (ref ∷ refs) × ((r1 ≡ 0) ⊎ ((r1 ≡ frame) × Transferred read late))
