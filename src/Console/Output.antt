-- ===== src/Console/Output.antt =====
-- The ring of output as a queue of bytes.
use guestvm_guk.Base.{
  ℕ, zero, suc, ◌+◌, ◌-◌, ◌%◌, ◌^◌, ◌≤◌, ◌<◌, ◌≡◌, refl, sym, ap, ap₂, ◌∙◌, subst, Bool, true,
  false, min, arith, some, List, [], ◌∷◌, ◌++◌, append_assoc, append-nil, ltb, if-true, if-false,
  length, take, drop, length-take, length-drop, take-drop,
}
use guestvm_guk.Xenbus.Ring.{Wire, next_index, put_byte}
use guestvm_guk.Xenbus.Ring.Chunks.{put, get}
use guestvm_guk.Xenbus.Ring.Queue.{put-pending}
use guestvm_guk.Console.{
  Interface, Printing, printed, crashed, endless, then_send, used, xencons_notify_daemon, send_loop,
  xencons_ring_send_no_notify, notify_of, xencons_ring_send, xencons_ring_send_fn, checked_print,
}

-- the bytes that the console daemon has yet to take
abbrev pub pending : Wire → Interface → List ℕ
pending w s = get w s.out_ring s.out_cons (used s.out_prod s.out_cons)

-- the bytes that have gone through the ring: those that the daemon has taken, and those in the ring
abbrev pub passed : Wire → Interface → List ℕ
passed w s = s.taken_out ++ pending w s

pub record IsOutput (w : Wire) (s : Interface) : Type 0 where
  pub prod_lt : s.out_prod < 2 ^ 32
  pub cons_lt : s.out_cons < 2 ^ 32
  pub bounded : used s.out_prod s.out_cons ≤ w.size

take-min : (room : ℕ) (bytes : List ℕ) → take room bytes ≡ take (min (length bytes) room) bytes
take-min zero [] = let e : 0 ≡ min 0 0 = omega arith in ap (λ k. take k []) e
take-min (suc room) [] = let e : 0 ≡ min 0 (suc room) = omega arith in ap (λ k. take k []) e
take-min zero (b ∷ bytes) =
    let e : 0 ≡ min (length (b ∷ bytes)) 0 = omega arith in ap (λ k. take k (b ∷ bytes)) e
take-min (suc room) (b ∷ bytes) =
    let e : suc (min (length bytes) room) ≡ min (suc (length bytes)) (suc room) = omega arith in
    ap (λ l. b ∷ l) (take-min room bytes) ∙ ap (λ k. take k (b ∷ bytes)) e

module _ (w : Wire) where
  -- The loop puts as many bytes as there is room for, one at each index.
  send_loop-put :
      (bytes : List ℕ) (room cons prod : ℕ) (ring : ℕ → ℕ)
      → prod < 2 ^ 32
      → cons < 2 ^ 32
      → used prod cons + room ≡ w.size
      → send_loop w bytes cons prod ring ≡ (
        min (length bytes) room,
        (prod + min (length bytes) room) % 2 ^ 32,
        put w ring prod (take room bytes),
      )
  unfolding send_loop put
  send_loop-put [] zero cons prod ring low small fits =
      ap₂ {A = ℕ} {B = ℕ} (λ n p. (n, p, ring)) (omega arith) (omega arith)
  send_loop-put [] (suc room) cons prod ring low small fits =
      ap₂ {A = ℕ} {B = ℕ} (λ n p. (n, p, ring)) (omega arith) (omega arith)
  send_loop-put (b ∷ bytes) zero cons prod ring low small fits =
      if-false (ltb (used prod cons) w.size) _ _ (ground (arith, fits))
      ∙ ap₂ {A = ℕ} {B = ℕ} (λ n p. (n, p, ring)) (omega arith) (omega arith)
  send_loop-put (b ∷ bytes) (suc room) cons prod ring low small fits =
      if-true (ltb (used prod cons) w.size) _ _ (ground (arith, fits))
      ∙ ap {A = ℕ × ℕ × (ℕ → ℕ)} (λ r. (suc r.0, r.1, r.2))
          (send_loop-put bytes room cons (next_index prod) (put_byte ring (w.mask prod) b)
            (omega arith) small (omega (arith, fits, low, small, w.size_lt)))
      ∙ ap₂ {A = ℕ} {B = ℕ}
          (λ n p. (n, p, put w (put_byte ring (w.mask prod) b) (next_index prod) (take room bytes)))
          (omega arith) (omega arith)

  -- A send takes the bytes that there is room for into the queue.
  pub record Sends (bytes : List ℕ) (s : Interface) (sent : ℕ) (s' : Interface) : Type 0 where
    pub count : sent ≡ min (length bytes) (w.size - used s.out_prod s.out_cons)
    pub is_output : IsOutput w s'
    pub kept : s'.taken_out ≡ s.taken_out
    pub queue : pending w s' ≡ pending w s ++ take sent bytes

  xencons_ring_send_no_notify-Sends :
      (bytes : List ℕ) (s : Interface)
      → IsOutput w s
      → (sent : ℕ) × (s' : Interface) × (xencons_ring_send_no_notify w bytes s ≡ some (sent, s'))
        × Sends bytes s sent s'
  unfolding xencons_ring_send_no_notify
  xencons_ring_send_no_notify-Sends bytes s v = (
    sent,
    record s {
      out_prod = (s.out_prod + sent) % 2 ^ 32;
      out_ring = put w s.out_ring s.out_prod (take room bytes);
    },
    if-false (ltb w.size (used s.out_prod s.out_cons)) _ _ (ground (arith, v.bounded))
        ∙ ap {A = ℕ × ℕ × (ℕ → ℕ)} (λ r. some (r.0, record s { out_prod = r.1; out_ring = r.2 }))
            (send_loop-put bytes room s.out_cons s.out_prod s.out_ring v.prod_lt v.cons_lt
              (omega (arith, v.bounded))),
    record {
      count = refl;
      is_output = record {
        prod_lt = omega arith;
        cons_lt = v.cons_lt;
        bounded = omega (arith, grown, v.bounded);
      };
      kept = refl;
      queue =
          ap (get w (put w s.out_ring s.out_prod (take room bytes)) s.out_cons)
            (grown ∙ omega (arith, size))
          ∙ put-pending w
              (record { req_prod = s.out_prod; req_cons = s.out_cons; req = s.out_ring })
              (take room bytes)
              (record { prod_lt = v.prod_lt; cons_lt = v.cons_lt; bounded = v.bounded })
              (omega (arith, size, v.bounded))
          ∙ ap (λ l. pending w s ++ l) (take-min room bytes);
    },
  )
    where
      room : ℕ
      room = w.size - used s.out_prod s.out_cons

      sent : ℕ
      sent = min (length bytes) room

      size : length (take room bytes) ≡ sent
      size = ground (arith, length-take room bytes)

      grown : used ((s.out_prod + sent) % 2 ^ 32) s.out_cons ≡ used s.out_prod s.out_cons + sent
      grown = omega (arith, v.prod_lt, v.cons_lt, v.bounded, w.size_lt)

  xencons_ring_send_fn-Sends :
      (initialised : Bool) (bytes : List ℕ) (s : Interface)
      → IsOutput w s
      → (sent : ℕ) × (s' : Interface) × (xencons_ring_send_fn w initialised bytes s
          ≡ some (sent, s'))
        × Sends bytes s sent s'
  unfolding xencons_ring_send_fn xencons_ring_send
  xencons_ring_send_fn-Sends false bytes s v = xencons_ring_send_no_notify-Sends bytes s v
  xencons_ring_send_fn-Sends true bytes s v =
      let (sent, s', e, h) = xencons_ring_send_no_notify-Sends bytes s v in
      (
        sent,
        xencons_notify_daemon s',
        ap notify_of e,
        record {
          count = h.count;
          is_output = record {
            prod_lt = h.is_output.prod_lt;
            cons_lt = h.is_output.cons_lt;
            bounded = h.is_output.bounded;
          };
          kept = h.kept;
          queue = h.queue;
        },
      )

  -- A daemon that takes bytes off the front of the ring, and leaves room for more.
  abbrev pub Drains : (Interface → Interface) → Type 0
  Drains daemon =
      (s : Interface)
      → IsOutput w s
      → IsOutput w (daemon s)
        × (used (daemon s).out_prod (daemon s).out_cons < w.size)
        × (taken : List ℕ) × (pending w s ≡ taken ++ pending w (daemon s))
        × ((daemon s).taken_out ≡ s.taken_out ++ taken)

  -- All bytes have gone into the ring behind those that had: the daemon has taken some of them, and the
  -- others are left.
  abbrev pub Prints : List ℕ → Interface → Printing Interface → Type 0
  Prints bytes s (printed s') = IsOutput w s' × (passed w s' ≡ passed w s ++ bytes)
  Prints bytes s crashed = ⊥
  Prints bytes s endless = ⊥

  -- What the daemon takes has gone through the ring before.
  passed-Drains :
      (taken : List ℕ) (s s0 : Interface)
      → pending w s ≡ taken ++ pending w s0
      → s0.taken_out ≡ s.taken_out ++ taken
      → passed w s0 ≡ passed w s
  passed-Drains taken s s0 drained logged =
      ap (λ l. l ++ pending w s0) logged
      ∙ append_assoc s.taken_out taken (pending w s0)
      ∙ ap (λ l. s.taken_out ++ l) (sym drained)

  -- What is sent goes through the ring next.
  passed-Sends :
      (bytes : List ℕ) (s : Interface) (sent : ℕ) (s' : Interface)
      → Sends bytes s sent s'
      → passed w s' ≡ passed w s ++ take sent bytes
  passed-Sends bytes s sent s' h =
      ap (λ l. l ++ pending w s') h.kept
      ∙ ap (λ l. s.taken_out ++ l) h.queue
      ∙ sym (append_assoc s.taken_out (pending w s) (take sent bytes))

  -- a part of the bytes, and the rest
  Prints-rest :
      (bytes : List ℕ) (sent : ℕ) (s s1 : Interface) (result : Printing Interface)
      → passed w s1 ≡ passed w s ++ take sent bytes
      → Prints (drop sent bytes) s1 result
      → Prints bytes s result
  Prints-rest bytes sent s s1 crashed e h = h
  Prints-rest bytes sent s s1 endless e h = h
  Prints-rest bytes sent s s1 (printed s') e (v, f) = (
    v,
    f
        ∙ ap (λ l. l ++ drop sent bytes) e
        ∙ append_assoc (passed w s) (take sent bytes) (drop sent bytes)
        ∙ ap (λ l. passed w s ++ l) (take-drop sent bytes),
  )

  module _ (initialised : Bool) (daemon : Interface → Interface) (drains : Drains daemon) where
    pub checked_print-Prints :
        (fuel : ℕ) (bytes : List ℕ) (s : Interface)
        → length bytes ≤ fuel
        → IsOutput w s
        → Prints bytes s (checked_print fuel w initialised daemon bytes s)
    unfolding checked_print
    checked_print-Prints fuel [] s enough v = (v, sym (append-nil (passed w s)))
    checked_print-Prints zero (b ∷ bytes) s enough v = absurd (omega arith)
    checked_print-Prints (suc fuel) (b ∷ bytes) s enough v =
        let (ready, free, taken, drained, logged) = drains s v in
        let (sent, s1, e, h) =
          xencons_ring_send_fn-Sends initialised (b ∷ bytes) (daemon s) ready in
        Prints-rest (b ∷ bytes) sent s s1 _
          (passed-Sends (b ∷ bytes) (daemon s) sent s1 h
            ∙ ap (λ l. l ++ take sent (b ∷ bytes))
                (passed-Drains taken s (daemon s) drained logged))
          (subst
            (λ o. Prints (drop sent (b ∷ bytes)) s1 (
              then_send o
                (λ n s2. checked_print fuel w initialised daemon (drop n (b ∷ bytes)) s2)))
            (sym e)
            (checked_print-Prints fuel (drop sent (b ∷ bytes)) s1
              (omega (arith, length-drop sent (b ∷ bytes), h.count, free)) h.is_output))
