-- ===== src/Net/Send.antt =====
-- The identifiers of packets that are sent.
use guestvm_guk.Base.{
  ℕ, ◌<◌, ◌≡◌, refl, sym, ap, ◌∙◌, subst, true, false, not, arith, some, List, [], ◌∷◌, ◌++◌, ◌%◌,
  ◌^◌, ◌==◌, if-true, if-false, append_assoc,
}
use guestvm_guk.FreeIds.{get_id_from_freelist}
use guestvm_guk.FreeIds.Stack.{
  IsFreeList, Pops, add_id_to_freelist-zero, get_id_from_freelist-Pops, add_id_to_freelist-push,
}
use guestvm_guk.Net.{Transmit, Net, put, xmit, collect}

-- a packet on its way
abbrev pub message : ℕ → (ℕ → ℕ) → ℕ → Transmit
message id grant len = record { id = id; gref = grant id; size = len % 2 ^ 16 }

-- the state in which a packet has been sent with the identifier
pub record Sends (n id : ℕ) (ids : List ℕ) (grant : ℕ → ℕ) (len : ℕ) (s s' : Net) : Type 0 where
  pub list : IsFreeList n s'.tx_freelist ids
  pub sent : s'.tx_sent ≡ s.tx_sent ++ (message id grant len ∷ [])
  pub gref : s'.tx_gref id ≡ grant id
  pub ended : s'.ended ≡ s.ended

xmit-Sends :
    (n id : ℕ) (ids : List ℕ) (grant : ℕ → ℕ) (len : ℕ) (s : Net)
    → 0 < n
    → s.is_ready ≡ true
    → IsFreeList n s.tx_freelist (id ∷ ids)
    → Sends n id ids grant len s (xmit grant len s)
unfolding xmit
xmit-Sends n id ids grant len s pos ready v =
    subst (Sends n id ids grant len s) (sym (if-false (not s.is_ready) _ _ (ap not ready)))
      (record {
        list = popped.1;
        sent = ap (λ k. s.tx_sent ++ (message k grant len ∷ [])) popped.0;
        gref = at got popped.0;
        ended = refl;
      })
  where
    popped : Pops n (id ∷ ids) (get_id_from_freelist s.tx_freelist)
    popped = get_id_from_freelist-Pops n s.tx_freelist (id ∷ ids) pos v

    got : ℕ
    got = (get_id_from_freelist s.tx_freelist).0

    at : (k : ℕ) → k ≡ id → put s.tx_gref k (grant k) id ≡ grant id
    at k e =
        subst (λ j. put s.tx_gref j (grant j) id ≡ grant id) (sym e)
          (if-true (id == id) _ _ (ground arith))

-- Where the front end is ready and an identifier is free, sending a packet puts one request with
-- the first free identifier, its grant and the low 16 bits of the length into the ring, and when
-- the response to it is collected the grant is ended and the free list is as before.
pub collect-xmit :
    (n id : ℕ) (ids : List ℕ) (grant : ℕ → ℕ) (len : ℕ) (s : Net)
    → 0 < n
    → s.is_ready ≡ true
    → IsFreeList n s.tx_freelist (id ∷ ids)
    → IsFreeList n (collect (some id ∷ []) (xmit grant len s)).tx_freelist (id ∷ ids)
      × ((collect (some id ∷ []) (xmit grant len s)).ended ≡ s.ended ++ (grant id ∷ []))
      × ((xmit grant len s).tx_sent ≡ s.tx_sent ++ (message id grant len ∷ []))
unfolding collect
collect-xmit n id ids grant len s pos ready v =
    let w = xmit-Sends n id ids grant len s pos ready v in
    (
      add_id_to_freelist-push n id _ ids w.list v.proper.0 v.proper.1 v.proper.2,
      rw (w.gref, w.ended) refl,
      w.sent,
    )

-- A packet that is sent while the front end is not ready takes an identifier, which is lost.
pub xmit-loses :
    (n id : ℕ) (ids : List ℕ) (grant : ℕ → ℕ) (len : ℕ) (s : Net)
    → 0 < n
    → s.is_ready ≡ false
    → IsFreeList n s.tx_freelist (id ∷ ids)
    → IsFreeList n (xmit grant len s).tx_freelist ids × ((xmit grant len s).tx_sent ≡ s.tx_sent)
unfolding xmit
xmit-loses n id ids grant len s pos down v =
    subst {A = Net} (λ t. IsFreeList n t.tx_freelist ids × (t.tx_sent ≡ s.tx_sent))
      (sym (if-true (not s.is_ready) _ _ (ap not down)))
      ((get_id_from_freelist-Pops n s.tx_freelist (id ∷ ids) pos v).1, refl)

-- the state after a packet for which there was no identifier
pub record Shares (n : ℕ) (grant : ℕ → ℕ) (len : ℕ) (s s' : Net) : Type 0 where
  pub list : IsFreeList n s'.tx_freelist []
  pub sent : s'.tx_sent ≡ s.tx_sent ++ (message 0 grant len ∷ [])
  pub ready : s'.is_ready ≡ s.is_ready

xmit-Shares :
    (n : ℕ) (grant : ℕ → ℕ) (len : ℕ) (s : Net)
    → 0 < n
    → s.is_ready ≡ true
    → IsFreeList n s.tx_freelist []
    → Shares n grant len s (xmit grant len s)
unfolding xmit
xmit-Shares n grant len s pos ready v =
    let (is_zero, list) = get_id_from_freelist-Pops n s.tx_freelist [] pos v in
    subst (Shares n grant len s) (sym (if-false (not s.is_ready) _ _ (ap not ready))) (record {
      list = list;
      sent = ap (λ k. s.tx_sent ++ (message k grant len ∷ [])) is_zero;
      ready = refl;
    })

-- Without a free identifier two packets are sent with identifier 0.
pub xmit-xmit :
    (n : ℕ) (grant : ℕ → ℕ) (len len' : ℕ) (s : Net)
    → 0 < n
    → s.is_ready ≡ true
    → IsFreeList n s.tx_freelist []
    → (xmit grant len' (xmit grant len s)).tx_sent
      ≡ s.tx_sent ++ (message 0 grant len ∷ message 0 grant len' ∷ [])
xmit-xmit n grant len len' s pos ready v =
    let a = xmit-Shares n grant len s pos ready v in
    let b = xmit-Shares n grant len' (xmit grant len s) pos (a.ready ∙ ready) a.list in
    b.sent
    ∙ ap (λ l. l ++ (message 0 grant len' ∷ [])) a.sent
    ∙ append_assoc s.tx_sent (message 0 grant len ∷ []) (message 0 grant len' ∷ [])

-- A response to identifier 0 leaves no identifier free.
pub collect-zero :
    (n : ℕ) (ids : List ℕ) (s : Net)
    → 0 < n
    → IsFreeList n s.tx_freelist ids
    → IsFreeList n (collect (some 0 ∷ []) s).tx_freelist []
unfolding collect
collect-zero n ids s pos v = add_id_to_freelist-zero n s.tx_freelist ids pos v
