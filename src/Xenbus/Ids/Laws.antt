-- ===== src/Xenbus/Ids/Laws.antt =====
-- The table of identifiers and the count of the live ones.
use guestvm_guk.Base.{
  ℕ, zero, suc, ◌+◌, ◌-◌, ◌%◌, ◌≤◌, ◌<◌, ◌≡◌, refl, sym, ap, ◌∙◌, subst, Bool, true, false, not,
  arith, Option, none, some, ltb, ltb→lt, ◌==◌, if◌then◌else◌, if-true, if-false, ℕ_discrete,
  Bool-cases, inl, inr,
}
use guestvm_guk.Xenbus.Ids.{
  nr_reqs, Ids, mark_live, released, release_xenbus_id, find_id, Allocated, waits, bug, got,
  take_id, allocate_xenbus_id,
}

-- the live identifiers below `n`
abbrev pub count_live : (ℕ → Bool) → ℕ → ℕ
count_live live zero = 0
count_live live (suc n) = (if live n then 1 else 0) + count_live live n

pub record IsTable (s : Ids) : Type 0 where
  pub counted : s.nr_live_reqs ≡ count_live s.live nr_reqs
  pub probe_lt : s.probe < nr_reqs

count_live-le : (live : ℕ → Bool) (n : ℕ) → count_live live n ≤ n
count_live-le live zero = omega arith
count_live-le live (suc n) = ground (arith, count_live-le live n)

-- A change of one entry changes the count by that entry.
count_live-mark_live :
    (live : ℕ → Bool) (id n : ℕ) (b : Bool)
    → count_live (mark_live live id b) n + (if ltb id n then (if live id then 1 else 0) else 0)
      ≡ count_live live n + (if ltb id n then (if b then 1 else 0) else 0)
count_live-mark_live live id zero b = ground arith
count_live-mark_live live id (suc n) b = ground (arith, count_live-mark_live live id n b)

-- If every entry is live, the count is full.
count_live-all :
    (live : ℕ → Bool) (n : ℕ) → ((j : ℕ) → j < n → live j ≡ true) → count_live live n ≡ n
count_live-all live zero all = refl
count_live-all live (suc n) all =
    ground (arith, all n, count_live-all live n (λ j h. all j (omega arith)))

-- what a search from `start`, now at distance `k` from it, may find
Found : (ℕ → Bool) → ℕ → ℕ → Option ℕ → Type 0
Found live start k none = (j : ℕ) → k ≤ j → j < nr_reqs → live ((start + j) % nr_reqs) ≡ true
Found live start k (some id) =
    (d : ℕ) × (id ≡ (start + d) % nr_reqs)
    × (live id ≡ false)
    × (d < nr_reqs)
    × ((j : ℕ) → k ≤ j → j < d → live ((start + j) % nr_reqs) ≡ true)

Found-live :
    (live : ℕ → Bool) (start k : ℕ) (r : Option ℕ)
    → live ((start + k) % nr_reqs) ≡ true
    → Found live start (k + 1) r
    → Found live start k r
unfolding Found
Found-live live start k none here rest = λ j low high. elim (ℕ_discrete k j) [
  | yes e ↦ subst (λ i. live ((start + i) % nr_reqs) ≡ true) e here
  | no ne ↦ rest j (omega arith) high
]
Found-live live start k (some id) here (d, e, free, lt, rest) = (
  d,
  e,
  free,
  lt,
  λ j low high. elim (ℕ_discrete k j) [
    | yes same ↦ subst (λ i. live ((start + i) % nr_reqs) ≡ true) same here
    | no ne ↦ rest j (omega arith) high
  ],
)

find_id-Found :
    (fuel : ℕ) (live : ℕ → Bool) (start k : ℕ)
    → start < nr_reqs
    → k + fuel ≡ nr_reqs
    → Found live start k (find_id fuel live start ((start + k) % nr_reqs))
unfolding find_id Found
find_id-Found zero live start k inside all = λ j low high. absurd (omega arith)
find_id-Found (suc fuel) live start k inside all =
    elim (Bool-cases (live ((start + k) % nr_reqs))) [
      | inl here ↦ elim (Bool-cases (((start + k) % nr_reqs + 1) % nr_reqs == start)) [
        | inl round ↦
            subst (Found live start k) (sym (if-false _ _ _ (ap not here) ∙ if-true _ _ _ round))
              (Found-live live start k none here (λ j low high. absurd (ground (arith, round))))
        | inr more ↦
            subst (Found live start k)
              (sym (
                if-false _ _ _ (ap not here)
                ∙ if-false _ _ _ more
                ∙ ap (find_id fuel live start) (omega arith)))
              (Found-live live start k _ here
                (find_id-Found fuel live start (k + 1) inside (omega arith)))
      ]
      | inr free ↦
          subst (Found live start k) (sym (if-true _ _ _ (ap not free)))
            (k, refl, free, omega arith, λ j low high. absurd (omega arith))
    ]

-- what `allocate_xenbus_id` comes to
abbrev pub Allocates : Ids → Allocated → Type 0
Allocates s waits = s.nr_live_reqs ≡ nr_reqs
Allocates s bug = ⊥
Allocates s (got id s') =
    IsTable s'
    × (id < nr_reqs)
    × (s.live id ≡ false)
    × (s'.live ≡ mark_live s.live id true)
    × ((d : ℕ) × (id ≡ (s.probe + d) % nr_reqs)
        × ((j : ℕ) → j < d → s.live ((s.probe + j) % nr_reqs) ≡ true))

take_id-Allocates :
    (s : Ids) (r : Option ℕ)
    → IsTable s
    → s.nr_live_reqs < nr_reqs
    → Found s.live s.probe 0 r
    → Allocates s (take_id s r)
unfolding Found
take_id-Allocates s none v room all =
    absurd (omega (arith, v.counted, count_live-all s.live nr_reqs every))
  where
    every : (j : ℕ) → j < nr_reqs → s.live j ≡ true
    every j h =
        subst (λ i. s.live i ≡ true) (omega (arith, v.probe_lt))
          (all ((j + nr_reqs - s.probe) % nr_reqs) (omega arith) (omega arith))
take_id-Allocates s (some id) v room (d, e, free, lt, before) = (
  record {
    counted = ground (arith, v.counted, count_live-mark_live s.live id nr_reqs true);
    probe_lt = omega arith;
  },
  omega arith,
  free,
  refl,
  (d, e, λ j h. before j (omega arith) h),
)

-- Where the table of identifiers is consistent, with its count of live ones and its probe in range,
-- `allocate_xenbus_id` never stops the system: it takes the first identifier that is not live,
-- going round from the probe, marks this one only and leaves a consistent table, or it waits, and
-- then all 32 are live.
pub allocate_xenbus_id-Allocates : (s : Ids) → IsTable s → Allocates s (allocate_xenbus_id s)
unfolding allocate_xenbus_id
allocate_xenbus_id-Allocates s v = elim (Bool-cases (ltb s.nr_live_reqs nr_reqs)) [
  | inl room ↦ subst (Allocates s) (sym (if-true _ _ _ room)) (
      take_id-Allocates s _ v (ltb→lt s.nr_live_reqs nr_reqs room) (
        subst (λ k. Found s.live s.probe 0 (find_id nr_reqs s.live s.probe k)) start
          (find_id-Found nr_reqs s.live s.probe 0 v.probe_lt (omega arith))))
  | inr full ↦
      subst (Allocates s) (sym (if-false _ _ _ full))
        (ground (arith, v.counted, count_live-le s.live nr_reqs))
]
  where
    start : (s.probe + 0) % nr_reqs ≡ s.probe
    start = omega (arith, v.probe_lt)

-- Where `release_xenbus_id` returns, the table is consistent and the identifier is not live.
pub release_xenbus_id-IsTable :
    (id : ℕ) (s s' : Ids)
    → IsTable s
    → id < nr_reqs
    → release_xenbus_id id s ≡ some s'
    → IsTable s' × (s'.live id ≡ false)
unfolding release_xenbus_id
release_xenbus_id-IsTable id s s' v h e = elim (Bool-cases (s.live id)) [
  | inl on ↦
      let same : released id s ≡ s' = cc (sym (if-false _ _ _ (ap not on)) ∙ e) in
      subst (λ t. IsTable t × (t.live id ≡ false)) same
        (
          record {
            counted = ground (arith, v.counted, count_live-mark_live s.live id nr_reqs false);
            probe_lt = v.probe_lt;
          },
          ground arith,
        )
  | inr off ↦ cc (sym (if-true _ _ _ (ap not off)) ∙ e)
]
