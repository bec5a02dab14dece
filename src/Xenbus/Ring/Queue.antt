-- ===== src/Xenbus/Ring/Queue.antt =====
-- The ring of requests as a queue of bytes.
use guestvm_guk.Base.{
  ℕ, zero, suc, ◌+◌, ◌-◌, ◌%◌, ◌^◌, ◌≤◌, ◌<◌, ◌≡◌, ◌≢◌, refl, sym, ap, ap₂, ◌∙◌, subst, Bool, true,
  false, arith, List, ◌∷◌, ◌++◌, length, ltb, leb→le, if◌then◌else◌, if-true, if-false,
  length-append,
}
use guestvm_guk.Xenbus.Ring.{
  Wire, next_index, total_length, Requests, WriteResult, bug, sent, finish, send, has_room,
  xb_write,
}
use guestvm_guk.Xenbus.Ring.Chunks.{concat, length-concat, put, get, write_loop-put}
use guestvm_guk.Xenbus.Ring.Transfer.{get-append, get-put, put-outside}

module _ (w : Wire) where
  -- the bytes that the reader has yet to consume, and how many they are
  abbrev pub unread : Requests → ℕ
  unread q = (q.req_prod + 2 ^ 32 - q.req_cons) % 2 ^ 32

  abbrev pub pending : Requests → List ℕ
  pending q = get w q.req q.req_cons (unread q)

  pub record IsRing (q : Requests) : Type 0 where
    pub prod_lt : q.req_prod < 2 ^ 32
    pub cons_lt : q.req_cons < 2 ^ 32
    pub bounded : unread q ≤ w.size

  -- Bytes that are put behind others leave these.
  get-put_behind :
      (ring : ℕ → ℕ) (i n p : ℕ) (bytes : List ℕ)
      → i < 2 ^ 32
      → p ≡ (i + n) % 2 ^ 32
      → n + length bytes ≤ w.size
      → get w (put w ring p bytes) i n ≡ get w ring i n
  unfolding get
  get-put_behind ring i zero p bytes small e h = refl
  get-put_behind ring i (suc n) p bytes small e h =
      ap₂ (λ x l. x ∷ l) (put-outside w ring p bytes (w.mask i) (omega arith) apart)
        (get-put_behind ring (next_index i) n p bytes (omega arith) (omega arith) (omega arith))
    where
      apart : (k : ℕ) → k < length bytes → w.mask ((p + k) % 2 ^ 32) ≢ w.mask i
      apart k lt same = absurd (
          ground (
            arith,
            w.mask_lt i,
            ap w.mask (far i n p k e) ∙ w.mask_add i (n + (k + 1)) (omega arith),
            same,
          ))
        where
          far :
              (a b c d : ℕ)
              → c ≡ (a + suc b) % 2 ^ 32
              → (c + d) % 2 ^ 32 ≡ (a + (b + (d + 1))) % 2 ^ 32
          far a b c d eq = omega arith

  pub put-pending :
      (q : Requests) (bytes : List ℕ)
      → IsRing q
      → unread q + length bytes ≤ w.size
      → get w (put w q.req q.req_prod bytes) q.req_cons (unread q + length bytes)
        ≡ pending q ++ bytes
  put-pending q bytes v h =
      get-append w _ q.req_cons (unread q) (length bytes) v.cons_lt
      ∙ ap₂ (λ a b. a ++ b)
          (get-put_behind q.req q.req_cons (unread q) q.req_prod bytes v.cons_lt (sym at) h)
          (ap (λ k. get w (put w q.req q.req_prod bytes) k (length bytes)) at
            ∙ get-put w q.req q.req_prod bytes v.prod_lt (omega arith))
    where
      at : (q.req_cons + unread q) % 2 ^ 32 ≡ q.req_prod
      at = omega (arith, v.prod_lt, v.cons_lt)

  -- the state after a message has been sent
  abbrev pub with_message : Requests → List ℕ → Requests
  with_message q bytes = record q {
    req_prod = (q.req_prod + length bytes) % 2 ^ 32;
    req = put w q.req q.req_prod bytes;
  }

  -- what `xb_write` puts in the ring
  abbrev pub message : List ℕ → List (List ℕ) → List ℕ
  message header reqs = header ++ concat reqs

  length-message :
      (header : List ℕ) (reqs : List (List ℕ))
      → length (message header reqs) ≡ length header + total_length reqs
  length-message header reqs = omega (arith, length-append header (concat reqs), length-concat reqs)

  send-sent :
      (header : List ℕ) (reqs : List (List ℕ)) (q : Requests)
      → IsRing q
      → unread q + length (message header reqs) ≤ w.size
      → q.req_cons + w.size < 2 ^ 32
      → send w header reqs (length (message header reqs)) q
        ≡ sent (with_message q (message header reqs))
  unfolding send
  send-sent header reqs q v room low =
      ap (finish w q (length (message header reqs))) (
        write_loop-put w _ (header ∷ reqs) 0 (length (message header reqs)) q.req_prod q.req refl
          (omega arith) (omega arith) v.prod_lt)
      ∙ if-false
          (ltb ((q.req_cons + w.size) % 2 ^ 32)
            ((q.req_prod + length (message header reqs)) % 2 ^ 32))
          _ _ (ground (arith, v.prod_lt, v.cons_lt))

  -- The state in which `xb_write` sends: the first, or the one it finds when it has waited.
  abbrev pub sends_from : ℕ → Requests → Requests → Requests
  sends_from len q later = if has_room w len q then q else later

  xb_write-send :
      (header : List ℕ) (reqs : List (List ℕ)) (q later : Requests)
      → length (message header reqs) ≤ w.size
      → xb_write w header reqs q later
        ≡ send w header reqs
            (length (message header reqs))
            (sends_from (length (message header reqs)) q later)
  unfolding xb_write
  xb_write-send header reqs q later fits =
      if-false (ltb w.size (length header + total_length reqs)) _ _
        (ground (arith, length-message header reqs))
      ∙ choose (has_room w (length header + total_length reqs) q)
      ∙ ap (λ n. send w header reqs n (sends_from n q later)) (sym (length-message header reqs))
    where
      choose :
          (b : Bool)
          → (if b
              then send w header reqs (length header + total_length reqs) q
              else send w header reqs (length header + total_length reqs) later)
            ≡ send w header reqs (length header + total_length reqs) (if b then q else later)
      choose true = refl
      choose false = refl

  has_room-unread :
      (len : ℕ) (q : Requests)
      → IsRing q
      → len ≤ w.size
      → has_room w len q ≡ true
      → unread q + len ≤ w.size
  unfolding has_room
  has_room-unread len q v h room = omega (
    arith,
    v.prod_lt,
    v.cons_lt,
    v.bounded,
    w.size_lt,
    leb→le ((q.req_prod + len + 2 ^ 32 - q.req_cons) % 2 ^ 32) w.size room,
  )

  -- what it means that a message has been queued behind the unread bytes
  abbrev pub Queued : List ℕ → Requests → WriteResult → Type 0
  Queued bytes q bug = ⊥
  Queued bytes q (sent q') = IsRing q' × (pending q' ≡ pending q ++ bytes)

  with_message-Queued :
      (q : Requests) (bytes : List ℕ)
      → IsRing q
      → unread q + length bytes ≤ w.size
      → Queued bytes q (sent (with_message q bytes))
  with_message-Queued q bytes v h = (
    record { prod_lt = omega arith; cons_lt = v.cons_lt; bounded = omega (arith, h, grown) },
    ap (get w (put w q.req q.req_prod bytes) q.req_cons) grown ∙ put-pending q bytes v h,
  )
    where
      grown :
          ((q.req_prod + length bytes) % 2 ^ 32 + 2 ^ 32 - q.req_cons) % 2 ^ 32
          ≡ unread q + length bytes
      grown = omega (arith, v.prod_lt, v.cons_lt, w.size_lt, h)

  -- The whole ring as a queue of bytes: where `xb_write` finds the indices of a ring and room for
  -- the message when it holds the lock for the last time, and the consumer's index and the size of
  -- the ring add up to less than 2^32, it puts the header and all pieces, in order, behind the
  -- bytes that the daemon has not read, and changes none of those.
  pub xb_write-Queued :
      (header : List ℕ) (reqs : List (List ℕ)) (q later at : Requests)
      → length (message header reqs) ≤ w.size
      → sends_from (length (message header reqs)) q later ≡ at
      → IsRing at
      → has_room w (length (message header reqs)) at ≡ true
      → at.req_cons + w.size < 2 ^ 32
      → Queued (message header reqs) at (xb_write w header reqs q later)
  xb_write-Queued header reqs q later at fits from v room low =
      subst (Queued (message header reqs) at)
        (sym (
          xb_write-send header reqs q later fits
          ∙ ap (send w header reqs (length (message header reqs))) from
          ∙ send-sent header reqs at v space low))
        (with_message-Queued at (message header reqs) v space)
    where
      space : unread at + length (message header reqs) ≤ w.size
      space = has_room-unread (length (message header reqs)) at v fits room

  -- Where the consumer's index and the size of the ring add up to 2^32 or more, the last check of
  -- `xb_write` stops the system for a message that there is room for and that ends before the index
  -- goes round, although the ring has not been overrun.
  pub xb_write-wraps :
      (header : List ℕ) (reqs : List (List ℕ)) (q later : Requests)
      → IsRing q
      → length (message header reqs) ≤ w.size
      → has_room w (length (message header reqs)) q ≡ true
      → 2 ^ 32 ≤ q.req_cons + w.size
      → q.req_cons ≤ q.req_prod
      → q.req_prod + length (message header reqs) < 2 ^ 32
      → xb_write w header reqs q later ≡ bug
  unfolding send
  xb_write-wraps header reqs q later v fits room high ahead low =
      xb_write-send header reqs q later fits
      ∙ ap (send w header reqs (length (message header reqs)))
          (if-true (has_room w (length (message header reqs)) q) q later room)
      ∙ ap (finish w q (length (message header reqs))) (
          write_loop-put w _ (header ∷ reqs) 0 (length (message header reqs)) q.req_prod q.req refl
            (omega arith) (omega arith) v.prod_lt)
      ∙ if-true
          (ltb ((q.req_cons + w.size) % 2 ^ 32)
            ((q.req_prod + length (message header reqs)) % 2 ^ 32))
          _ _ (ground (arith, w.size_lt, v.cons_lt))
