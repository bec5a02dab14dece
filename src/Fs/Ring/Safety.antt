-- ===== src/Fs/Ring/Safety.antt =====
-- No place in the ring is reserved twice, and the ring never overflows.
use guestvm_guk.Base.{
  ℕ, ◌+◌, ◌≤◌, ◌<◌, ◌≡◌, ◌≢◌, sym, ap, ◌∙◌, subst, true, arith, ◌==◌, if-true, if-false, Bool-cases,
  inl, inr, ℕ_discrete,
}
use guestvm_guk.Fs.Ring.{outside, looking, reserved, Ring, put_phase, reserve, commit}
use guestvm_guk.Fs.Ring.Room.{
  Step, Steps, IsSafe, phase-own, phase-other, reserved-injective, idle-IsSafe, look-IsSafe,
  check_room-IsSafe, looks, checks, reserves, commits, takes, done, step,
}

reserve-taken :
    (r : Ring) (t : ℕ)
    → IsSafe r
    → ((idx : ℕ) → r.phase t ≢ reserved idx)
    → r.req_prod_pvt < r.rsp_cons + r.size
    → IsSafe
        (record (put_phase r t (reserved r.req_prod_pvt)) { req_prod_pvt = r.req_prod_pvt + 1 })
reserve-taken r t v free room = record {
  order = (v.order.0, ground (arith, v.order.1));
  fits = ground (arith, room);
  behind = λ u idx e. elim (ℕ_discrete u t) [
    | yes same ↦
        let p =
          sym (phase-own r t (reserved r.req_prod_pvt))
          ∙ ap (put_phase r t _).phase (sym same)
          ∙ e in
        cc
    | no ne ↦ let h = v.behind u idx (sym (phase-other r t u _ ne) ∙ e) in ground (arith, h)
  ];
  room = λ u idx e. elim (ℕ_discrete u t) [
    | yes same ↦
        let p =
          sym (phase-own r t (reserved r.req_prod_pvt))
          ∙ ap (put_phase r t _).phase (sym same)
          ∙ e in
        cc
    | no ne ↦ let h = v.room u idx (sym (phase-other r t u _ ne) ∙ e) in (ground (arith, h.0), h.1)
  ];
  held = λ u idx e. elim (ℕ_discrete u t) [
    | yes same ↦ let i = own u idx same e in (ground (arith, i, v.order.1), ground (arith, i))
    | no ne ↦ let h = v.held u idx (sym (phase-other r t u _ ne) ∙ e) in (h.0, ground (arith, h.1))
  ];
  once = λ u w idx e f. elim (ℕ_discrete u t) [
    | yes same ↦ elim (ℕ_discrete w t) [
      | yes also ↦ same ∙ sym also
      | no ne ↦
          absurd
            (ground (arith, own u idx same e, (v.held w idx (sym (phase-other r t w _ ne) ∙ f)).1))
    ]
    | no ne ↦ elim (ℕ_discrete w t) [
      | yes also ↦
          absurd
            (ground (arith, own w idx also f, (v.held u idx (sym (phase-other r t u _ ne) ∙ e)).1))
      | no other ↦
          v.once u w idx (sym (phase-other r t u _ ne) ∙ e) (sym (phase-other r t w _ other) ∙ f)
    ]
  ];
  holder = λ idx low high. elim (ℕ_discrete idx r.req_prod_pvt) [
    | yes new ↦ (t, phase-own r t _ ∙ ap reserved (sym new))
    | no old ↦
        let (u, e) = v.holder idx low (ground (arith, high, old)) in
        (u, phase-other r t u _ (λ same. free idx (ap r.phase (sym same) ∙ e)) ∙ e)
  ];
}
  where
    own :
        (u idx : ℕ)
        → u ≡ t
        → (put_phase r t (reserved r.req_prod_pvt)).phase u ≡ reserved idx
        → r.req_prod_pvt ≡ idx
    own u idx same e =
        reserved-injective r.req_prod_pvt idx (
          sym (phase-own r t (reserved r.req_prod_pvt)) ∙ ap (put_phase r t _).phase (sym same) ∙ e)

reserve-IsSafe :
    (r : Ring) (t idx : ℕ) → r.phase t ≡ looking idx → IsSafe r → IsSafe (reserve r t idx)
unfolding reserve
reserve-IsSafe r t idx at v = elim (Bool-cases (r.req_prod_pvt == idx)) [
  | inl still ↦
      let same : r.req_prod_pvt ≡ idx = ground (arith, still) in
      subst IsSafe (sym (if-true _ _ _ still)) (
        subst (λ i. IsSafe (record (put_phase r t (reserved i)) { req_prod_pvt = i + 1 })) same
          (reserve-taken r t v (λ i e. cc) (ground (arith, same, (v.room t idx at).1))))
  | inr moved ↦
      subst IsSafe (sym (if-false _ _ _ moved))
        (idle-IsSafe r t outside v (λ i e. cc) (λ i e. cc) (λ i e. cc) (λ i e. cc))
]

commit-done :
    (r : Ring) (t : ℕ)
    → IsSafe r
    → r.phase t ≡ reserved r.req_prod
    → IsSafe (record (put_phase r t outside) { req_prod = r.req_prod + 1 })
commit-done r t v at = record {
  order = (ground (arith, v.order.0), ground (arith, (v.held t r.req_prod at).1));
  fits = v.fits;
  behind = λ u idx e. elim (ℕ_discrete u t) [
    | yes same ↦
        let p = sym (phase-own r t outside) ∙ ap (put_phase r t _).phase (sym same) ∙ e in cc
    | no ne ↦ v.behind u idx (sym (phase-other r t u _ ne) ∙ e)
  ];
  room = λ u idx e. elim (ℕ_discrete u t) [
    | yes same ↦
        let p = sym (phase-own r t outside) ∙ ap (put_phase r t _).phase (sym same) ∙ e in cc
    | no ne ↦ v.room u idx (sym (phase-other r t u _ ne) ∙ e)
  ];
  held = λ u idx e.
      let (ne, f) = older u idx e in
      let h = v.held u idx f in
      let later : r.req_prod ≢ idx = (λ same. ne (v.once u t idx f (at ∙ ap reserved same))) in
      (ground (arith, h.0, later), h.1);
  once = λ u w idx e f. v.once u w idx (older u idx e).1 (older w idx f).1;
  holder = λ idx low high.
      let (u, e) = v.holder idx (ground (arith, low)) high in
      let other : u ≢ t = (λ same.
        let i = reserved-injective r.req_prod idx (sym at ∙ ap r.phase (sym same) ∙ e) in
        ground (arith, i, low)) in
      (u, phase-other r t u _ other ∙ e);
}
  where
    older :
        (u idx : ℕ)
        → (put_phase r t outside).phase u ≡ reserved idx
        → (u ≢ t) × (r.phase u ≡ reserved idx)
    older u idx e = elim (ℕ_discrete u t) [
      | yes same ↦
          let p = sym (phase-own r t outside) ∙ ap (put_phase r t _).phase (sym same) ∙ e in cc
      | no ne ↦ (ne, sym (phase-other r t u _ ne) ∙ e)
    ]

commit-IsSafe :
    (r : Ring) (t idx : ℕ) → r.phase t ≡ reserved idx → IsSafe r → IsSafe (commit r t idx)
unfolding commit
commit-IsSafe r t idx at v = elim (Bool-cases (r.req_prod == idx)) [
  | inl next ↦
      let same : r.req_prod ≡ idx = ground (arith, next) in
      subst IsSafe (sym (if-true _ _ _ next)) (
        subst (λ i. IsSafe (record (put_phase r t outside) { req_prod = i + 1 })) same
          (commit-done r t v (at ∙ ap reserved (sym same))))
  | inr later ↦ subst IsSafe (sym (if-false _ _ _ later)) v
]

takes-IsSafe :
    (r : Ring) (cons : ℕ)
    → r.rsp_cons ≤ cons
    → cons ≤ r.req_prod
    → IsSafe r
    → IsSafe (record r { rsp_cons = cons })
takes-IsSafe r cons up within v = record {
  order = (within, v.order.1);
  fits = ground (arith, up, v.fits);
  behind = v.behind;
  room = λ t idx e. ((v.room t idx e).0, ground (arith, up, (v.room t idx e).1));
  held = v.held;
  once = v.once;
  holder = v.holder;
}

Step-IsSafe : (r r' : Ring) → Step r r' → IsSafe r → IsSafe r'
Step-IsSafe r r' (looks t out e) v = subst IsSafe e (look-IsSafe r t out v)
Step-IsSafe r r' (checks t idx at e) v = subst IsSafe e (check_room-IsSafe r t idx at v)
Step-IsSafe r r' (reserves t idx at low e) v = subst IsSafe e (reserve-IsSafe r t idx at v)
Step-IsSafe r r' (commits t idx at e) v = subst IsSafe e (commit-IsSafe r t idx at v)
Step-IsSafe r r' (takes cons up within e) v = subst IsSafe e (takes-IsSafe r cons up within v)

-- In every order of the steps of threads that read the index of the next place, check for room,
-- reserve by compare-and-exchange and commit, and of a handler that takes responses up to the
-- requests committed, it stays so that the indices are in order and within the size of the ring,
-- and that each place between the committed and the reserved requests is held by exactly one
-- thread, as long as no index goes round in its 32 bits.
pub Steps-IsSafe : (r'' r : Ring) → Steps r'' r → IsSafe r → IsSafe r''
Steps-IsSafe r'' r done v = v
Steps-IsSafe r'' r (step _ s one more) v = Steps-IsSafe r'' s more (Step-IsSafe r s one v)

-- After any such steps from a ring in which this holds, as long as a place is reserved and not
-- committed, some thread holds the next place to be committed, and its compare-and-exchange in
-- `commit_fsif_request` succeeds and lets it go on.
pub commit-progress :
    (r'' r : Ring)
    → Steps r'' r
    → IsSafe r
    → r''.req_prod < r''.req_prod_pvt
    → (t : ℕ) × (r''.phase t ≡ reserved r''.req_prod)
      × ((commit r'' t r''.req_prod).req_prod ≡ r''.req_prod + 1)
      × ((commit r'' t r''.req_prod).phase t ≡ outside)
unfolding commit
commit-progress r'' r steps v waiting =
    let (t, at) = (Steps-IsSafe r'' r steps v).holder r''.req_prod (ground arith) waiting in
    let next : (r''.req_prod == r''.req_prod) ≡ true = ground arith in
    (
      t,
      at,
      ap {A = Ring} (λ q. q.req_prod) (if-true _ _ _ next),
      ap {A = Ring} (λ q. q.phase t) (if-true _ _ _ next) ∙ phase-own r'' t outside,
    )
