-- ===== src/Memory/Scan/FirstFit.antt =====
-- The search of `_allocate_pages` is first fit.
use guestvm_guk.Base.{
  ℕ, zero, suc, ◌+◌, ◌≤◌, ◌<◌, true, false, some, List, ◌≡◌, refl, ◌≢◌, ◌⊎◌, inl, inr, arith,
  Bool-cases, dec_lt, ℕ_discrete,
}
use guestvm_guk.Memory.Bitmap.{allocated_in_map}
use guestvm_guk.Memory.Scan.{extend_run, find_run}

-- The `n` pages from `page` on lie below `end` and are free.
pub record IsRun (map : List ℕ) (end n page : ℕ) : Type 0 where
  pub below : page + n ≤ end
  pub free : (p : ℕ) → page ≤ p → p < page + n → allocated_in_map map p ≡ false

module _ (map : List ℕ) (end : ℕ) where
  abbrev left_over : ℕ → ℕ → ℕ → ℕ
  left_over k npage page = (extend_run map end (suc k) npage page).0

  abbrev left_at : ℕ → ℕ → ℕ → ℕ
  left_at k npage page = (extend_run map end (suc k) npage page).1

  -- The inner loop ends with `nn == 1` only behind `k` free pages from `npage` on.
  extend_run-at : (k npage page : ℕ) → left_over k npage page ≡ 1 → left_at k npage page ≡ page
  unfolding extend_run
  extend_run-at zero npage page e = refl
  extend_run-at (suc k) npage page e = ground (arith, extend_run-at k (npage + 1) page)

  extend_run-le : (k npage page : ℕ) → npage ≤ end → left_over k npage page ≡ 1 → npage + k ≤ end
  unfolding extend_run
  extend_run-le zero npage page h e = omega arith
  extend_run-le (suc k) npage page h e = ground (arith, extend_run-le k (npage + 1) page)

  extend_run-free :
      (k npage page p : ℕ)
      → left_over k npage page ≡ 1
      → npage ≤ p
      → p < npage + k
      → allocated_in_map map p ≡ false
  unfolding extend_run
  extend_run-free zero npage page p e a b = absurd (omega arith)
  extend_run-free (suc k) npage page p e a b = elim (ℕ_discrete npage p) [
    | yes same ↦ ground arith
    | no other ↦ ground (arith, extend_run-free k (npage + 1) page p)
  ]

  -- Otherwise the run meets the end, or an allocated page, which the search goes on behind.
  extend_run-missed :
      (k npage page : ℕ)
      → left_over k npage page ≢ 1
      → ((left_at k npage page ≡ page) × (end < npage + k))
        ⊎ ((npage ≤ left_at k npage page)
            × (left_at k npage page < npage + k)
            × (allocated_in_map map (left_at k npage page) ≡ true))
  unfolding extend_run
  extend_run-missed zero npage page e = absurd (e refl)
  extend_run-missed (suc k) npage page e = ground (arith, extend_run-missed k (npage + 1) page)

  -- What the search returns is a run at or behind the page that it starts from.
  pub find_run-le :
      (left k page a : ℕ)
      → find_run left map end (suc k) page ≡ some a
      → (page ≤ a) × (a + suc k ≤ end)
  unfolding find_run
  find_run-le zero k page a e = absurd (ground arith)
  find_run-le (suc left) k page a e = ground (
    arith,
    extend_run-at k (page + 1) page,
    extend_run-le k (page + 1) page,
    extend_run-missed k (page + 1) page,
    find_run-le left k (page + 1) a,
    find_run-le left k (left_at k (page + 1) page + 1) a,
  )

  pub find_run-free :
      (left k page a p : ℕ)
      → find_run left map end (suc k) page ≡ some a
      → a ≤ p
      → p < a + suc k
      → allocated_in_map map p ≡ false
  unfolding find_run
  find_run-free zero k page a p e h h' = absurd (ground arith)
  find_run-free (suc left) k page a p e h h' = elim (ℕ_discrete page p) [
    | yes same ↦ ground (
      arith,
      extend_run-at k (page + 1) page,
      find_run-le left k (page + 1) a,
      find_run-free left k (page + 1) a p,
      find_run-free left k (left_at k (page + 1) page + 1) a p,
    )
    | no other ↦ ground (
      arith,
      extend_run-at k (page + 1) page,
      extend_run-free k (page + 1) page p,
      find_run-free left k (page + 1) a p,
      find_run-free left k (left_at k (page + 1) page + 1) a p,
    )
  ]

  -- A run lies behind the page at which the search goes on.
  IsRun-behind :
      (k page q : ℕ)
      → left_over k (page + 1) page ≢ 1
      → page ≤ q
      → IsRun map end (suc k) q
      → left_at k (page + 1) page + 1 ≤ q
  IsRun-behind k page q e h r = elim (dec_lt (left_at k (page + 1) page) q) [
    | yes lt ↦ omega arith
    | no ge ↦
        ground (arith, extend_run-missed k (page + 1) page, r.free (left_at k (page + 1) page))
  ]

  -- While there is a run, the search finds one that does not lie behind it.
  pub find_run-first :
      (left k page q : ℕ)
      → end ≤ page + left
      → page ≤ q
      → IsRun map end (suc k) q
      → (a : ℕ) × (find_run left map end (suc k) page ≡ some a) × (a ≤ q)
  unfolding find_run
  find_run-first zero k page q enough h r = absurd (omega arith)
  find_run-first (suc left) k page q enough h r = elim (Bool-cases (allocated_in_map map page)) [
    | inl used ↦
        let (a, e, le) =
          find_run-first left k (page + 1) q (omega arith) (ground (arith, r.free page)) r in
        (a, ground arith, le)
    | inr free ↦ elim (ℕ_discrete (left_over k (page + 1) page) 1) [
      | yes one ↦ (page, ground (arith, extend_run-at k (page + 1) page), h)
      | no more ↦
          let (a, e, le) =
            find_run-first left k (left_at k (page + 1) page + 1) q
              (ground (arith, extend_run-missed k (page + 1) page)) (IsRun-behind k page q more h r)
              r in
          (a, ground arith, le)
    ]
  ]
