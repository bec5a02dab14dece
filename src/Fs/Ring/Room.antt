-- ===== src/Fs/Ring/Room.antt =====
-- The places of the ring that threads have reserved, and the room in it.
use guestvm_guk.Base.{
  ℕ, ◌+◌, ◌^◌, ◌≤◌, ◌<◌, ◌≡◌, ◌≢◌, sym, ap, ◌∙◌, subst, arith, ◌==◌, if-true, if-false, Bool-cases,
  inl, inr, ℕ_discrete,
}
use guestvm_guk.Fs.Ring.{
  Phase, outside, reading, looking, reserved, Ring, put_phase, free_requests, look, check_room,
  reserve, commit,
}

-- One step of a thread, or of the handler that takes responses.
pub data Step (r r' : Ring) : Type 0 where
  looks : (t : ℕ) → r.phase t ≡ outside → look r t ≡ r' → Step r r'
  checks : (t idx : ℕ) → r.phase t ≡ reading idx → check_room r t idx ≡ r' → Step r r'
  reserves :
      (t idx : ℕ)
      → r.phase t ≡ looking idx
      → r.req_prod_pvt + 1 < 2 ^ 32
      → reserve r t idx ≡ r'
      → Step r r'
  commits : (t idx : ℕ) → r.phase t ≡ reserved idx → commit r t idx ≡ r' → Step r r'
  takes :
      (cons : ℕ)
      → r.rsp_cons ≤ cons
      → cons ≤ r.req_prod
      → record r { rsp_cons = cons } ≡ r'
      → Step r r'

pub data Steps (r'' : Ring) : Ring → Type 0 where
  done : Steps r'' r''
  step : (r r' : Ring) → Step r r' → Steps r'' r' → Steps r'' r

abbrev index_of : Phase → ℕ
index_of outside = 0
index_of (reading idx) = idx
index_of (looking idx) = idx
index_of (reserved idx) = idx

-- The indices are in order and within the ring, and the places between `req_prod` and `req_prod_pvt`
-- are those that threads hold, each by one.
pub record IsSafe (r : Ring) : Type 0 where
  pub order : (r.rsp_cons ≤ r.req_prod) × (r.req_prod ≤ r.req_prod_pvt)
  pub fits : r.req_prod_pvt ≤ r.rsp_cons + r.size
  pub behind : (t idx : ℕ) → r.phase t ≡ reading idx → idx ≤ r.req_prod_pvt
  pub room :
      (t idx : ℕ) → r.phase t ≡ looking idx → (idx ≤ r.req_prod_pvt) × (idx < r.rsp_cons + r.size)
  pub held : (t idx : ℕ) → r.phase t ≡ reserved idx → (r.req_prod ≤ idx) × (idx < r.req_prod_pvt)
  pub once : (t u idx : ℕ) → r.phase t ≡ reserved idx → r.phase u ≡ reserved idx → t ≡ u
  pub holder :
      (idx : ℕ) → r.req_prod ≤ idx → idx < r.req_prod_pvt → (t : ℕ) × (r.phase t ≡ reserved idx)

pub phase-own : (r : Ring) (t : ℕ) (p : Phase) → (put_phase r t p).phase t ≡ p
phase-own r t p = if-true (t == t) _ _ (ground arith)

pub phase-other : (r : Ring) (t u : ℕ) (p : Phase) → u ≢ t → (put_phase r t p).phase u ≡ r.phase u
phase-other r t u p ne = if-false (u == t) _ _ (ground (arith, ne))

pub reserved-injective : (i j : ℕ) → reserved i ≡ reserved j → i ≡ j
reserved-injective i j e = ap index_of e

reading-injective : (i j : ℕ) → reading i ≡ reading j → i ≡ j
reading-injective i j e = ap index_of e

looking-injective : (i j : ℕ) → looking i ≡ looking j → i ≡ j
looking-injective i j e = ap index_of e

-- A thread that was outside or looking gets a phase that reserves nothing.
pub idle-IsSafe :
    (r : Ring) (t : ℕ) (p : Phase)
    → IsSafe r
    → ((idx : ℕ) → r.phase t ≢ reserved idx)
    → ((idx : ℕ) → p ≢ reserved idx)
    → ((idx : ℕ) → p ≡ reading idx → idx ≤ r.req_prod_pvt)
    → ((idx : ℕ) → p ≡ looking idx → (idx ≤ r.req_prod_pvt) × (idx < r.rsp_cons + r.size))
    → IsSafe (put_phase r t p)
idle-IsSafe r t p v free none_held behind room = record {
  order = v.order;
  fits = v.fits;
  behind = λ u idx e. elim (ℕ_discrete u t) [
    | yes same ↦ behind idx (sym (phase-own r t p) ∙ ap (put_phase r t p).phase (sym same) ∙ e)
    | no ne ↦ v.behind u idx (sym (phase-other r t u p ne) ∙ e)
  ];
  room = λ u idx e. elim (ℕ_discrete u t) [
    | yes same ↦ room idx (sym (phase-own r t p) ∙ ap (put_phase r t p).phase (sym same) ∙ e)
    | no ne ↦ v.room u idx (sym (phase-other r t u p ne) ∙ e)
  ];
  held = λ u idx e. v.held u idx (older u idx e);
  once = λ u w idx e f. v.once u w idx (older u idx e) (older w idx f);
  holder = λ idx low high.
      let (u, e) = v.holder idx low high in
      (u, phase-other r t u p (λ same. free idx (ap r.phase (sym same) ∙ e)) ∙ e);
}
  where
    older : (u idx : ℕ) → (put_phase r t p).phase u ≡ reserved idx → r.phase u ≡ reserved idx
    older u idx e = elim (ℕ_discrete u t) [
      | yes same ↦
          absurd (none_held idx (sym (phase-own r t p) ∙ ap (put_phase r t p).phase (sym same) ∙ e))
      | no ne ↦ sym (phase-other r t u p ne) ∙ e
    ]

pub look-IsSafe : (r : Ring) (t : ℕ) → r.phase t ≡ outside → IsSafe r → IsSafe (look r t)
unfolding look
look-IsSafe r t out v =
    idle-IsSafe r t (reading r.req_prod_pvt) v (λ idx e. cc) (λ idx e. cc)
      (λ idx e. omega (arith, reading-injective r.req_prod_pvt idx e)) (λ idx e. cc)

pub check_room-IsSafe :
    (r : Ring) (t idx : ℕ) → r.phase t ≡ reading idx → IsSafe r → IsSafe (check_room r t idx)
unfolding check_room
check_room-IsSafe r t idx at v = elim (Bool-cases (free_requests r idx == 0)) [
  | inl full ↦
      subst IsSafe (sym (if-true _ _ _ full))
        (idle-IsSafe r t outside v (λ i e. cc) (λ i e. cc) (λ i e. cc) (λ i e. cc))
  | inr some_free ↦ subst IsSafe (sym (if-false _ _ _ some_free)) (
      idle-IsSafe r t (looking idx) v (λ i e. cc) (λ i e. cc) (λ i e. cc)
        (λ i e.
          let same = looking-injective idx i e in
          (
            omega (arith, same, v.behind t idx at),
            ground (arith, some_free, same, v.behind t idx at),
          )))
]
