-- ===== src/Memory/Pool/Increase.antt =====
-- Growing the pool: `increase_memory_holding_lock`, and that `_allocate_pages` always returns.
use guestvm_guk.Base.{
  ℕ, zero, suc, ◌+◌, ◌-◌, ◌≤◌, ◌<◌, ◌≡◌, refl, ap, Bool, true, false, arith, some, Option, List, [],
  ◌∷◌, Option-cases, Bool-cases, inl, inr, leb, ◌==◌, if◌then◌else◌, subst, sym,
}
use guestvm_guk.Memory.Holes.{Hole, hole_size, can_increase}
use guestvm_guk.Memory.Holes.Laws.{Ordered, Ordered-lower, total_pages}
use guestvm_guk.Memory.Pool.{
  Pool, Reserve, is_bulk, search_pages, take_pages, shrink_head, grow, increase_round,
  increase_loop, enter_increase, increase_memory, allocate_loop, allocate_pages,
}

-- What the pool relies on: the hypervisor gives no more pages than it is asked for, and nobody else
-- changes the hole list.
pub record IsHonest (reserve : Reserve) : Type 0 where
  pub bounded : (nr : ℕ) (h : Hole) (p : Pool) → (reserve nr h p).0 ≤ nr
  pub same_holes :
      (nr : ℕ) (h : Hole) (p : Pool) → (reserve nr h p).1.memory_hole_list ≡ p.memory_hole_list

-- the pages that the pool has no memory for
abbrev pub missing : Pool → ℕ
missing p = total_pages p.memory_hole_list

shrink_head-Ordered :
    (h : Hole) (rc low : ℕ) (holes : List Hole)
    → Ordered low (h ∷ holes)
    → rc ≤ hole_size h
    → Ordered low (shrink_head h rc (h ∷ holes))
      × (total_pages (shrink_head h rc (h ∷ holes)) + rc ≡ total_pages (h ∷ holes))
unfolding shrink_head
shrink_head-Ordered h rc low holes o le = elim (Bool-cases (hole_size h == rc)) [
  | inl all ↦ rw all (Ordered-lower low h.end_pfn holes (omega arith) o.3, ground arith)
  | inr part ↦ rw part ((omega arith, ground arith, o.2, o.3), omega arith)
]

-- The same, where the list is known by equations only.
shrink_head-list :
    (h : Hole) (rc low : ℕ) (holes xs ys : List Hole)
    → xs ≡ ys
    → ys ≡ h ∷ holes
    → Ordered low ys
    → rc ≤ hole_size h
    → Ordered low (shrink_head h rc xs) × (total_pages (shrink_head h rc xs) + rc ≡ total_pages ys)
shrink_head-list h rc low holes xs ys e e' o le =
    rw (e, e') (shrink_head-Ordered h rc low holes (rw e' at o) le)

-- What the loop has gained is what the holes have lost, and the holes stay in order.
record Gained (low result : ℕ) (p : Pool) (out : ℕ × Pool) : Type 0 where
  balance : out.0 + missing out.1 ≡ result + missing p
  ordered : Ordered low out.1.memory_hole_list

module _ {reserve : Reserve} (honest : IsHonest reserve) (low : ℕ) where
  grow-Gained :
      (p : Pool) (h : Hole) (holes : List Hole) (nn : ℕ)
      → p.memory_hole_list ≡ h ∷ holes
      → nn ≤ hole_size h
      → Ordered low p.memory_hole_list
      → Ordered low (grow (reserve nn h p).1 h (reserve nn h p).0).memory_hole_list
        × (missing (grow (reserve nn h p).1 h (reserve nn h p).0) + (reserve nn h p).0 ≡ missing p)
  unfolding grow
  grow-Gained p h holes nn e le o =
      shrink_head-list h (reserve nn h p).0 low holes (reserve nn h p).1.memory_hole_list
        p.memory_hole_list (honest.same_holes nn h p) e o (omega (arith, honest.bounded nn h p))

  -- A round keeps the balance, if what follows does.
  increase_round-Gained :
      (next : ℕ → ℕ → Pool → ℕ × Pool) (n result : ℕ) (p : Pool) (xs : List Hole)
      → ((m r : ℕ) (q : Pool) → Ordered low q.memory_hole_list → Gained low r q (next m r q))
      → p.memory_hole_list ≡ xs
      → Ordered low p.memory_hole_list
      → Gained low result p (increase_round reserve next n result p xs)
  unfolding increase_round
  increase_round-Gained next n result p [] good e o = record { balance = refl; ordered = o }
  increase_round-Gained next n result p (h ∷ holes) good e o = elim (Bool-cases (n == 0)) [
    | inl done ↦ rw done (record { balance = refl; ordered = o })
    | inr more ↦ rw more (elim (Bool-cases ((reserve nn h p).0 == 0)) [
      | inl failed ↦ rw failed (record {
        balance = ap (λ xs. result + total_pages xs) (honest.same_holes nn h p);
        ordered = subst (Ordered low) (sym (honest.same_holes nn h p)) o;
      })
      | inr got ↦ rw got (record {
        balance = omega (arith, (rest grown.0).balance, grown.1);
        ordered = (rest grown.0).ordered;
      })
    ])
  ]
    where
      nn : ℕ
      nn = if leb (hole_size h) n then hole_size h else n

      grown :
          Ordered low (grow (reserve nn h p).1 h (reserve nn h p).0).memory_hole_list
          × (missing (grow (reserve nn h p).1 h (reserve nn h p).0) + (reserve nn h p).0
              ≡ missing p)
      grown = grow-Gained p h holes nn e (ground arith) o

      rest :
          Ordered low (grow (reserve nn h p).1 h (reserve nn h p).0).memory_hole_list
          → Gained low
              (result + (reserve nn h p).0)
              (grow (reserve nn h p).1 h (reserve nn h p).0)
              (next
                (n - (reserve nn h p).0)
                (result + (reserve nn h p).0)
                (grow (reserve nn h p).1 h (reserve nn h p).0))
      rest o' = good _ _ _ o'

  increase_loop-Gained :
      (fuel n result : ℕ) (p : Pool)
      → Ordered low p.memory_hole_list
      → Gained low result p (increase_loop reserve fuel n result p)
  unfolding increase_loop
  increase_loop-Gained zero n result p o = record { balance = refl; ordered = o }
  increase_loop-Gained (suc fuel) n result p o =
      increase_round-Gained (increase_loop reserve fuel) n result p p.memory_hole_list
        (increase_loop-Gained fuel) refl o

  enter_increase-balance :
      (n : ℕ) (p : Pool) (flag : Bool)
      → Ordered low p.memory_hole_list
      → let (result, q) = enter_increase reserve n p flag in
        (result + missing q ≡ missing p) × Ordered low q.memory_hole_list
  unfolding enter_increase
  enter_increase-balance n p true o = (omega arith, o)
  enter_increase-balance n p false o = elim (Bool-cases (can_increase n p.memory_hole_list == 0)) [
    | inl cannot ↦ rw cannot (omega arith, o)
    | inr can ↦ rw can (omega (arith, gained.balance), gained.ordered)
  ]
    where
      gained :
          Gained low 0
            (record p { in_increase_memory = true })
            (increase_loop reserve n n 0 (record p { in_increase_memory = true }))
      gained = increase_loop-Gained n n 0 (record p { in_increase_memory = true }) o

  -- An increase of the page pool gains as many pages as leave the holes and keeps the holes in
  -- order, if the hypervisor gives no more pages than it is asked for and nobody else changes the
  -- holes.
  pub increase_memory-balance :
      (n : ℕ) (p : Pool)
      → Ordered low p.memory_hole_list
      → let (result, q) = increase_memory reserve n p in
        (result + missing q ≡ missing p) × Ordered low q.memory_hole_list
  unfolding increase_memory
  increase_memory-balance n p o = enter_increase-balance n p p.in_increase_memory o

  allocate_loop-returns :
      (fuel n : ℕ) (p : Pool)
      → Ordered low p.memory_hole_list
      → missing p < fuel
      → (r : Option ℕ × Pool) × (allocate_loop reserve fuel true n p ≡ some r)
  unfolding allocate_loop
  allocate_loop-returns zero n p o enough = absurd (omega arith)
  allocate_loop-returns (suc fuel) n p o enough = elim (Option-cases (search_pages p true n)) [
    | inr (page, e) ↦ ((some page, take_pages p true n page), rw (e, allocate_loop))
    | inl e ↦
        rw (e, allocate_loop)
          (elim (Bool-cases ((increase_memory reserve n p).0 == 0)) [
            | inl failed ↦ rw failed (_, refl)
            | inr got ↦ rw got (
                allocate_loop-returns fuel n (increase_memory reserve n p).1
                  (increase_memory-balance n p o).1 (ground (arith, increase_memory-balance n p o)))
          ])
  ]

  -- The loop of `_allocate_pages` ends after at most as many rounds as there are pages in the holes
  -- and two more, if the holes are in the order of their addresses, apart from each other and end
  -- below page 2^64, the hypervisor gives no more pages than it is asked for and nobody else
  -- changes the holes.
  pub allocate_pages-returns :
      (fuel n : ℕ) (p : Pool)
      → Ordered low p.memory_hole_list
      → missing p + 1 < fuel
      → (r : Option ℕ × Pool) × (allocate_pages reserve fuel n p ≡ some r)
  unfolding allocate_pages allocate_loop
  allocate_pages-returns zero n p o enough = absurd (omega arith)
  allocate_pages-returns (suc fuel) n p o enough = elim (Bool-cases (is_bulk n)) [
    | inl bulk ↦ rw bulk (allocate_loop-returns (suc fuel) n p o (omega arith))
    | inr few ↦ rw few (elim (Option-cases (search_pages p false n)) [
      | inr (page, e) ↦ ((some page, take_pages p false n page), rw (e, allocate_loop))
      | inl e ↦ rw (e, allocate_loop) (allocate_loop-returns fuel n p o (omega arith))
    ])
  ]
