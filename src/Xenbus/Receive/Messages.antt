-- ===== src/Xenbus/Receive/Messages.antt =====
-- The messages of the daemon against the queue of bytes that the ring holds.
use guestvm_guk.Base.{
  ℕ, ◌+◌, ◌-◌, ◌%◌, ◌^◌, ◌≤◌, ◌<◌, ◌≡◌, refl, ap, ◌∙◌, true, not, arith, List, ◌∷◌, ◌++◌, ltb, ◌==◌,
  if◌then◌else◌, if-true, if-false, ◌≢◌,
}
use guestvm_guk.Xenbus.Ring.{Wire}
use guestvm_guk.Xenbus.Ring.Chunks.{get}
use guestvm_guk.Xenbus.Ring.Transfer.{get-append, memcpy_from_ring-get}
use guestvm_guk.Xenbus.Receive.{
  Header, Bus, Outcome, idle, took, available, consume, receive, receive_message, receive_reply,
}

module _ (w : Wire) (header_size : ℕ) (decode : List ℕ → Header) (xs_watch_event : ℕ) where
  -- the bytes that wait in the ring
  abbrev pub waiting : Bus → List ℕ
  waiting s = get w s.rsp s.rsp_cons (available s)

  abbrev pub IsRing : Bus → Type 0
  IsRing s = (s.rsp_prod < 2 ^ 32) × (s.rsp_cons < 2 ^ 32) × (available s ≤ w.size)

  -- the header of what waits in the ring, and its bytes with the header
  abbrev pub first_header : Bus → Header
  first_header s = decode (get w s.rsp s.rsp_cons header_size)

  abbrev pub total : Bus → ℕ
  total s = (first_header s).len + header_size

  abbrev pub first_message : Bus → List ℕ
  first_message s = get w s.rsp s.rsp_cons (total s)

  -- Taking the first bytes leaves the others.
  waiting-consume :
      (s : Bus) (n : ℕ)
      → IsRing s
      → n ≤ available s
      → waiting s ≡ get w s.rsp s.rsp_cons n ++ waiting (consume s n)
  waiting-consume s n v h =
      ap (get w s.rsp s.rsp_cons) (omega arith)
      ∙ get-append w s.rsp s.rsp_cons n (available s - n) v.1
      ∙ ap (λ k. get w s.rsp s.rsp_cons n ++ get w s.rsp ((s.rsp_cons + n) % 2 ^ 32) k)
          (rest s.rsp_prod s.rsp_cons n v.0 v.1 h)
    where
      rest :
          (p c m : ℕ)
          → p < 2 ^ 32
          → c < 2 ^ 32
          → m ≤ (p + 2 ^ 32 - c) % 2 ^ 32
          → (p + 2 ^ 32 - c) % 2 ^ 32 - m ≡ (p + 2 ^ 32 - (c + m) % 2 ^ 32) % 2 ^ 32
      rest p c m hp hc hm = omega arith

  receive-receive_message :
      (s : Bus)
      → IsRing s
      → total s ≤ available s
      → receive w header_size decode xs_watch_event s
        ≡ receive_message w header_size decode xs_watch_event s (first_header s) (total s)
  unfolding receive
  receive-receive_message s v h =
      if-false (ltb (available s) header_size) _ _ (ground arith)
      ∙ ap after (memcpy_from_ring-get w s.rsp s.rsp_cons header_size v.1 (omega (arith, v.2)))
      ∙ if-false (ltb (available s) (header_size + (first_header s).len)) _ _ (ground arith)
    where
      after : List ℕ → Outcome
      after bytes =
          if ltb (available s) (header_size + (decode bytes).len)
          then idle
          else receive_message w header_size decode xs_watch_event s (decode bytes)
              ((decode bytes).len + header_size)

  -- what becomes of a reply
  pub record Delivered (s s' : Bus) : Type 0 where
    pub queue : waiting s ≡ first_message s ++ waiting s'
    pub reply : s'.reply (first_header s).req_id ≡ first_message s
    pub others : (j : ℕ) → j ≢ (first_header s).req_id → s'.reply j ≡ s.reply j
    pub woken : s'.woken_requests ≡ (first_header s).req_id ∷ s.woken_requests

  -- Where the indices of the reply ring are in order, a whole message waits that is no watch event,
  -- and its identifier is live: one round of `xenbus_thread_func` takes exactly the first message
  -- off the bytes that wait, gives its bytes to the request with that identifier and to no other,
  -- and wakes that request.
  pub receive-Delivered :
      (s : Bus)
      → IsRing s
      → total s ≤ available s
      → (first_header s).kind ≢ xs_watch_event
      → s.live (first_header s).req_id ≡ true
      → (s' : Bus) × (receive w header_size decode xs_watch_event s ≡ took s') × Delivered s s'
  unfolding receive_message receive_reply
  receive-Delivered s v h reply live = (
    delivered,
    receive-receive_message s v h
        ∙ if-false ((first_header s).kind == xs_watch_event) _ _ (ground (arith, reply))
        ∙ if-false (not (s.live (first_header s).req_id)) _ _ (ap not live)
        ∙ ap (λ m. took (consume (with_reply m) (total s)))
            (memcpy_from_ring-get w s.rsp s.rsp_cons (total s) v.1 (omega (arith, v.2))),
    record {
      queue = waiting-consume s (total s) v h;
      reply = if-true ((first_header s).req_id == (first_header s).req_id) _ _ (ground arith);
      others = λ j ne. if-false (j == (first_header s).req_id) _ _ (ground (arith, ne));
      woken = refl;
    },
  )
    where
      with_reply : List ℕ → Bus
      with_reply m = record s {
        reply = λ j. if j == (first_header s).req_id then m else s.reply j;
        woken_requests = (first_header s).req_id ∷ s.woken_requests;
      }

      delivered : Bus
      delivered = consume (with_reply (first_message s)) (total s)
