-- ===== src/Block/Requests/Responses.antt =====
-- What a response does to the identifiers of the block front end.
use guestvm_guk.Base.{
  ℕ, ◌<◌, ◌≡◌, ◌≢◌, refl, sym, ap, ◌∙◌, subst, Bool, true, false, not, arith, some, List, [], ◌∷◌,
  ◌++◌, ltb, ◌==◌, if◌then◌else◌, if-true, if-false, length, ℕ_discrete,
}
use guestvm_guk.Sched.{unlink}
use guestvm_guk.Sched.Queue.{count, count-unlink}
use guestvm_guk.FreeIds.Stack.{add_id_to_freelist-push, count-Fresh}
use guestvm_guk.Block.Requests.{
  blk_done_success, blk_done_error, is_submitted, Shadow, Blk, grefs_of, finish_request, respond,
}
use guestvm_guk.Block.Requests.Pool.{IsPool}

-- what a response to a request on its way comes to
pub record Responded (n : ℕ) (free busy : List ℕ) (id : ℕ) (okay : Bool) (s s' : Blk) : Type 0 where
  pub pool : IsPool n (id ∷ free) (unlink id busy) s'
  pub done : s'.state (s.shadows id).request ≡ (if okay then blk_done_success else blk_done_error)
  pub others : (r : ℕ) → r ≢ (s.shadows id).request → s'.state r ≡ s.state r
  pub called : s'.called ≡ s.called ++ ((s.shadows id).request ∷ [])
  pub ended : s'.ended ≡ s.ended ++ grefs_of (s.shadows id).gref (s.shadows id).num_refs 0

finished-shadow :
    (id j : ℕ) (okay : Bool) (s : Blk) → j ≢ id → (finish_request id okay s).shadows j ≡ s.shadows j
finished-shadow id j okay s ne = ground (arith, ne)

finished-state :
    (id r : ℕ) (okay : Bool) (s : Blk)
    → r ≢ (s.shadows id).request
    → (finish_request id okay s).state r ≡ s.state r
finished-state id r okay s ne = if-false (r == (s.shadows id).request) _ _ (ground (arith, ne))

finish_request-Responded :
    (n : ℕ) (free busy : List ℕ) (id : ℕ) (okay : Bool) (s : Blk)
    → IsPool n free busy s
    → 0 < count id busy
    → Responded n free busy id okay s (finish_request id okay s)
unfolding count
finish_request-Responded n free busy id okay s v on_way = record {
  pool = record {
    list =
        add_id_to_freelist-push n id s.freelist free v.list (ground (arith, v.once id))
          (ground (arith, v.once id)) (count-Fresh id free (ground (arith, v.once id)));
    once = λ j. ground (arith, v.once j, v.once id, count-unlink j id busy);
    idle = λ j h. elim (ℕ_discrete j id) [
      | yes same ↦ subst (λ k. (s'.shadows k).free ≡ true) (sym same) (ground arith)
      | no ne ↦ ap Shadow.free (finished-shadow id j okay s ne) ∙ v.idle j (ground (arith, h, ne))
    ];
    held = λ j h.
        let ne = left j h in
        let k = still j h in
        subst (λ sh. (sh.free ≡ false) × (is_submitted (s'.state sh.request) ≡ true))
          (sym (finished-shadow id j okay s ne))
          (
            (v.held j k).0,
            ap is_submitted (
                  finished-state id (s.shadows j).request okay s
                    (λ e. ne (v.apart j id k on_way e)))
                ∙ (v.held j k).1,
          );
    apart = λ j k h h' e. v.apart j k (still j h) (still k h') (
        ap Shadow.request (sym (finished-shadow id j okay s (left j h)))
        ∙ e
        ∙ ap Shadow.request (finished-shadow id k okay s (left k h')));
  };
  done = if-true ((s.shadows id).request == (s.shadows id).request) _ _ (ground arith);
  others = λ r ne. finished-state id r okay s ne;
  called = refl;
  ended = refl;
}
  where
    s' : Blk
    s' = finish_request id okay s

    left : (j : ℕ) → 0 < count j (unlink id busy) → j ≢ id
    left j h e = absurd (ground (arith, h, v.once id, v.once j, count-unlink j id busy, e))

    still : (j : ℕ) → 0 < count j (unlink id busy) → 0 < count j busy
    still j h = ground (arith, h, count-unlink j id busy)

-- A response to a request on its way is taken, and its identifier is the first free one then.
pub respond-Responded :
    (n : ℕ) (free busy : List ℕ) (id : ℕ) (okay : Bool) (s : Blk)
    → IsPool n free busy s
    → 0 < count id busy
    → (s' : Blk) × (respond id okay s ≡ some s') × Responded n free busy id okay s s'
unfolding respond
respond-Responded n free busy id okay s v on_way = (
  finish_request id okay s,
  if-false (not (ltb id (length s.freelist))) _ _ (ground (arith, v.once id, v.list.size))
      ∙ if-false (s.shadows id).free _ _ (v.held id on_way).0
      ∙ if-false (not (is_submitted (s.state (s.shadows id).request))) _ _
          (ap not (v.held id on_way).1),
  finish_request-Responded n free busy id okay s v on_way,
)
