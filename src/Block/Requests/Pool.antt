-- ===== src/Block/Requests/Pool.antt =====
-- The identifiers of the block front end: each is free, or belongs to one request on its way.
use guestvm_guk.Base.{
  ℕ, ◌+◌, ◌<◌, ◌≡◌, ◌≢◌, refl, sym, ap, ◌∙◌, subst, true, false, not, ◌&&◌, arith, List, [], ◌∷◌,
  ltb, ◌==◌, if◌then◌else◌, if-true, if-false, Bool-cases, inl, inr, ℕ_discrete,
}
use guestvm_guk.Sched.Queue.{count}
use guestvm_guk.FreeIds.{get_id_from_freelist}
use guestvm_guk.FreeIds.Stack.{IsFreeList, Pops, get_id_from_freelist-Pops}
use guestvm_guk.Block.{Segment}
use guestvm_guk.Block.Requests.{
  Progress, blk_empty, blk_submitted, blk_done_success, blk_done_error, is_empty, is_submitted,
  IoRequest, Shadow, Blk, put_shadow, IoResult, bug, enomem, submitted, submit, submit_or_fail,
  is_sound, do_io,
}

-- The identifiers `free` are free, and `busy` belong to requests on their way.
pub record IsPool (n : ℕ) (free busy : List ℕ) (s : Blk) : Type 0 where
  pub list : IsFreeList n s.freelist free
  pub once : (id : ℕ) → count id free + count id busy ≡ (if ltb 0 id && ltb id n then 1 else 0)
  pub idle : (id : ℕ) → 0 < count id free → (s.shadows id).free ≡ true
  pub held :
      (id : ℕ)
      → 0 < count id busy
      → ((s.shadows id).free ≡ false) × (is_submitted (s.state (s.shadows id).request) ≡ true)
  pub apart :
      (id id' : ℕ)
      → 0 < count id busy
      → 0 < count id' busy
      → (s.shadows id).request ≡ (s.shadows id').request
      → id ≡ id'

-- what `guk_blk_do_io` comes to, with the identifiers `free`
abbrev pub Submits : ℕ → List ℕ → List ℕ → IoRequest → IoResult → Type 0
Submits n free busy io_req bug = ⊥
Submits n [] busy io_req (enomem s') = IsPool n [] busy s'
Submits n [] busy io_req (submitted s') = ⊥
Submits n (id ∷ free) busy io_req (enomem s') = ⊥
Submits n (id ∷ free) busy io_req (submitted s') =
    IsPool n free (id ∷ busy) s' × ((s'.shadows id).request ≡ io_req.request)

empty-IsPool :
    (n : ℕ) (busy freelist : List ℕ) (s : Blk)
    → IsPool n [] busy s
    → IsFreeList n freelist []
    → IsPool n [] busy
        (put_shadow (record s { freelist = freelist }) 0 (record (s.shadows 0) { free = false }))
unfolding count
empty-IsPool n busy freelist s v list = record {
  list = list;
  once = v.once;
  idle = λ id h. absurd (omega (arith, h));
  held = λ id h. ground (arith, v.held id h, v.once id);
  apart = λ id id' h h' e. v.apart id id' h h' (ground (arith, e, v.once 0));
}

-- the state after a request has got the identifier
abbrev taken : (ℕ → ℕ) → (ℕ → Segment) → IoRequest → ℕ → List ℕ → Blk → Blk
taken grant slot io_req id freelist s =
    submit grant slot io_req id
      (put_shadow (record s { freelist = freelist }) id (record (s.shadows id) { free = false }))

taken-others :
    (grant : ℕ → ℕ) (slot : ℕ → Segment) (io_req : IoRequest) (id : ℕ) (freelist : List ℕ) (s : Blk)
    (j : ℕ)
    → j ≢ id
    → (taken grant slot io_req id freelist s).shadows j ≡ s.shadows j
taken-others grant slot io_req id freelist s j ne = ground (arith, ne)

taken-own :
    (grant : ℕ → ℕ) (slot : ℕ → Segment) (io_req : IoRequest) (id : ℕ) (freelist : List ℕ) (s : Blk)
    → (((taken grant slot io_req id freelist s).shadows id).free ≡ false)
      × (((taken grant slot io_req id freelist s).shadows id).request ≡ io_req.request)
taken-own grant slot io_req id freelist s = (ground arith, ground arith)

taken-state :
    (grant : ℕ → ℕ) (slot : ℕ → Segment) (io_req : IoRequest) (id : ℕ) (freelist : List ℕ) (s : Blk)
    (r : ℕ)
    → (taken grant slot io_req id freelist s).state r
      ≡ (if r == io_req.request then blk_submitted else s.state r)
taken-state grant slot io_req id freelist s r = refl

-- A request that has not been submitted is none of those on their way.
empty-apart :
    (n : ℕ) (free busy : List ℕ) (s : Blk) (r j : ℕ)
    → IsPool n free busy s
    → is_empty (s.state r) ≡ true
    → 0 < count j busy
    → (s.shadows j).request ≢ r
empty-apart n free busy s r j v empty h e =
    absurd (both (s.state r) empty (subst (λ k. is_submitted (s.state k) ≡ true) e (v.held j h).1))
  where
    both : (p : Progress) → is_empty p ≡ true → is_submitted p ≡ true → ⊥
    both blk_empty a b = cc
    both blk_submitted a b = cc
    both blk_done_success a b = cc
    both blk_done_error a b = cc

taken-IsPool :
    (n : ℕ) (id : ℕ) (free busy freelist : List ℕ) (grant : ℕ → ℕ) (slot : ℕ → Segment)
    (io_req : IoRequest) (s : Blk)
    → IsPool n (id ∷ free) busy s
    → IsFreeList n freelist free
    → is_empty (s.state io_req.request) ≡ true
    → IsPool n free (id ∷ busy) (taken grant slot io_req id freelist s)
unfolding count
taken-IsPool n id free busy freelist grant slot io_req s v list empty = record {
  list = list;
  once = λ j. ground (arith, v.once j);
  idle = λ j h.
      ap Shadow.free (
        taken-others grant slot io_req id freelist s j
          (λ e. absurd (ground (arith, h, v.once j, e))))
      ∙ v.idle j (ground (arith, h));
  held = λ j h. elim (ℕ_discrete j id) [
    | yes same ↦
        subst
          (λ k.
            ((s'.shadows k).free ≡ false) × (is_submitted (s'.state (s'.shadows k).request) ≡ true))
          (sym same) ((taken-own grant slot io_req id freelist s).0, own)
    | no ne ↦
        subst (λ sh. (sh.free ≡ false) × (is_submitted (s'.state sh.request) ≡ true))
          (sym (taken-others grant slot io_req id freelist s j ne)) (other j (older j h ne))
  ];
  apart = λ j k h h' e. elim (ℕ_discrete j id) [
    | yes same ↦ elim (ℕ_discrete k id) [
      | yes same' ↦ same ∙ sym same'
      | no ne' ↦ absurd (
          empty-apart n (id ∷ free) busy s io_req.request k v empty (older k h' ne')
            (sym (request_of_other k ne') ∙ sym e ∙ request_of_own j same))
    ]
    | no ne ↦ elim (ℕ_discrete k id) [
      | yes same' ↦ absurd (
          empty-apart n (id ∷ free) busy s io_req.request j v empty (older j h ne)
            (sym (request_of_other j ne) ∙ e ∙ request_of_own k same'))
      | no ne' ↦
          v.apart j k (older j h ne) (older k h' ne')
            (sym (request_of_other j ne) ∙ e ∙ request_of_other k ne')
    ]
  ];
}
  where
    s' : Blk
    s' = taken grant slot io_req id freelist s

    request_of_own : (j : ℕ) → j ≡ id → (s'.shadows j).request ≡ io_req.request
    request_of_own j same =
        ap (λ k. (s'.shadows k).request) same ∙ (taken-own grant slot io_req id freelist s).1

    request_of_other : (j : ℕ) → j ≢ id → (s'.shadows j).request ≡ (s.shadows j).request
    request_of_other j ne = ap Shadow.request (taken-others grant slot io_req id freelist s j ne)

    own : is_submitted (s'.state (s'.shadows id).request) ≡ true
    own =
        ap (λ r. is_submitted (s'.state r)) (taken-own grant slot io_req id freelist s).1
        ∙ ap is_submitted (if-true (io_req.request == io_req.request) _ _ (ground arith))

    older : (j : ℕ) → 0 < count j (id ∷ busy) → j ≢ id → 0 < count j busy
    older j h ne = ground (arith, h, ne)

    other :
        (j : ℕ)
        → 0 < count j busy
        → ((s.shadows j).free ≡ false) × (is_submitted (s'.state (s.shadows j).request) ≡ true)
    other j h = (
      (v.held j h).0,
      ap is_submitted (
            if-false ((s.shadows j).request == io_req.request) _ _
              (ground (arith, empty-apart n (id ∷ free) busy s io_req.request j v empty h)))
          ∙ (v.held j h).1,
    )

is_sound-empty :
    (io_req : IoRequest) (s : Blk)
    → is_sound io_req s ≡ true
    → is_empty (s.state io_req.request) ≡ true
is_sound-empty io_req s h = elim (Bool-cases (is_empty (s.state io_req.request))) [
  | inl empty ↦ empty
  | inr used ↦ cc (sym (if-true (not (is_empty (s.state io_req.request))) _ _ (ap not used)) ∙ h)
]

-- what follows the choice of an identifier
abbrev chosen : (ℕ → ℕ) → (ℕ → Segment) → IoRequest → Blk → ℕ × List ℕ → IoResult
chosen grant slot io_req s (got, freelist) = submit_or_fail grant slot io_req (
  got,
  put_shadow (record s { freelist = freelist }) got (record (s.shadows got) { free = false }),
)

chosen-Submits :
    (n : ℕ) (free busy : List ℕ) (grant : ℕ → ℕ) (slot : ℕ → Segment) (io_req : IoRequest) (s : Blk)
    (p : ℕ × List ℕ)
    → IsPool n free busy s
    → is_empty (s.state io_req.request) ≡ true
    → Pops n free p
    → Submits n free busy io_req (chosen grant slot io_req s p)
chosen-Submits n [] busy grant slot io_req s (got, freelist) v empty (is_zero, list) =
    subst (λ k. Submits n [] busy io_req (chosen grant slot io_req s (k, freelist))) (sym is_zero)
      (empty-IsPool n busy freelist s v list)
chosen-Submits n (id ∷ free) busy grant slot io_req s (got, freelist) v empty (is_id, list) =
    subst (λ k. Submits n (id ∷ free) busy io_req (chosen grant slot io_req s (k, freelist)))
      (sym is_id)
      (subst (Submits n (id ∷ free) busy io_req)
        (sym (
          if-false (id == 0) _ (submitted (taken grant slot io_req id freelist s))
            (ground (arith, v.list.proper.0))))
        (
          taken-IsPool n id free busy freelist grant slot io_req s v list empty,
          (taken-own grant slot io_req id freelist s).1,
        ))

-- A sound request takes the first free identifier, or fails where there is none.
pub do_io-Submits :
    (n : ℕ) (free busy : List ℕ) (grant : ℕ → ℕ) (slot : ℕ → Segment) (io_req : IoRequest) (s : Blk)
    → 0 < n
    → IsPool n free busy s
    → is_sound io_req s ≡ true
    → Submits n free busy io_req (do_io grant slot io_req s)
unfolding do_io
do_io-Submits n free busy grant slot io_req s pos v sound =
    subst (Submits n free busy io_req) (sym (if-true (is_sound io_req s) _ _ sound)) (
      chosen-Submits n free busy grant slot io_req s (get_id_from_freelist s.freelist) v
        (is_sound-empty io_req s sound) (get_id_from_freelist-Pops n s.freelist free pos v.list))
