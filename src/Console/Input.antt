-- ===== src/Console/Input.antt =====
-- The ring of input, and the check for room before the console is initialised.
use guestvm_guk.Base.{
  ℕ, zero, suc, ◌+◌, ◌-◌, ◌%◌, ◌^◌, ◌≤◌, ◌<◌, ◌≡◌, ◌↔◌, refl, sym, ap, ap₂, ◌∙◌, true, min, arith,
  some, List, ◌∷◌, ◌++◌, ltb, ◌==◌, if-true, if-false, length,
}
use guestvm_guk.Xenbus.Ring.{Wire, next_index}
use guestvm_guk.Xenbus.Ring.Chunks.{get}
use guestvm_guk.Xenbus.Ring.Transfer.{get-append}
use guestvm_guk.Console.{
  Interface, used, xencons_notify_daemon, recv_loop, xencons_ring_recv, overflows, overflow_length,
}

-- the bytes that wait in the ring of input
abbrev pub waiting_input : Wire → Interface → List ℕ
waiting_input w s = get w s.in_ring s.in_cons (used s.in_prod s.in_cons)

pub record IsInput (w : Wire) (s : Interface) : Type 0 where
  pub prod_lt : s.in_prod < 2 ^ 32
  pub cons_lt : s.in_cons < 2 ^ 32
  pub bounded : used s.in_prod s.in_cons ≤ w.size

module _ (w : Wire) where
  length-get : (ring : ℕ → ℕ) (i n : ℕ) → length (get w ring i n) ≡ n
  unfolding get
  length-get ring i zero = refl
  length-get ring i (suc n) = ap suc (length-get ring (next_index i) n)

  recv_loop-get :
      (left n i prod : ℕ) (ring : ℕ → ℕ)
      → i < 2 ^ 32
      → prod < 2 ^ 32
      → used prod i ≡ n
      → recv_loop w left i prod ring ≡ get w ring i (min left n)
  unfolding recv_loop get
  recv_loop-get zero n i prod ring low small e =
      let none_left : 0 ≡ min 0 n = omega arith in ap (get w ring i) none_left
  recv_loop-get (suc left) zero i prod ring low small e =
      let none_left : 0 ≡ min (suc left) 0 = omega arith in
      if-true (i == prod) _ _ (ground (arith, e, low, small)) ∙ ap (get w ring i) none_left
  recv_loop-get (suc left) (suc n) i prod ring low small e =
      let one_more : suc (min left n) ≡ min (suc left) (suc n) = omega arith in
      if-false (i == prod) _ _ (ground (arith, e, low, small))
      ∙ ap (λ l. ring (w.mask i) ∷ l)
          (recv_loop-get left n (next_index i) prod ring (omega arith) small
            (omega (arith, e, low, small)))
      ∙ ap (get w ring i) one_more

  -- Where the ring of input is in order, `xencons_ring_recv` takes from the front of the bytes that
  -- wait as many as there are, at most the number asked for, leaves the others waiting in a ring in
  -- order, and notifies the daemon once.
  pub xencons_ring_recv-queue :
      (len : ℕ) (s : Interface)
      → IsInput w s
      → (bytes : List ℕ) × (s' : Interface) × (xencons_ring_recv w len s ≡ some (bytes, s'))
        × (length bytes ≡ min len (length (waiting_input w s)))
        × (waiting_input w s ≡ bytes ++ waiting_input w s')
        × IsInput w s'
        × (s'.notified ≡ s.notified + 1)
  unfolding xencons_ring_recv
  xencons_ring_recv-queue len s v = (
    bytes,
    xencons_notify_daemon (record s { in_cons = (s.in_cons + length bytes) % 2 ^ 32 }),
    if-false (ltb w.size n) _ _ (ground (arith, v.bounded)),
    count ∙ ap (min len) (sym (length-get s.in_ring s.in_cons n)),
    ap (get w s.in_ring s.in_cons) parts
        ∙ get-append w s.in_ring s.in_cons (min len n) (n - min len n) v.cons_lt
        ∙ ap₂ (λ a b. a ++ b) (sym got)
            (ap₂ (get w s.in_ring) (ap (λ k. (s.in_cons + k) % 2 ^ 32) (sym count)) (sym rest)),
    record { prod_lt = v.prod_lt; cons_lt = omega arith; bounded = omega (arith, rest, v.bounded) },
    refl,
  )
    where
      n : ℕ
      n = used s.in_prod s.in_cons

      bytes : List ℕ
      bytes = recv_loop w len s.in_cons s.in_prod s.in_ring

      got : bytes ≡ get w s.in_ring s.in_cons (min len n)
      got = recv_loop-get len n s.in_cons s.in_prod s.in_ring v.cons_lt v.prod_lt refl

      count : length bytes ≡ min len n
      count = ap length got ∙ length-get s.in_ring s.in_cons (min len n)

      parts : n ≡ min len n + (n - min len n)
      parts = omega arith

      rest : used s.in_prod ((s.in_cons + length bytes) % 2 ^ 32) ≡ n - min len n
      rest = omega (arith, count, v.prod_lt, v.cons_lt)

-- The check before the console is initialised stops the system exactly when between 0 and 56 bytes more of
-- input wait than are printed.
pub overflows_iff :
    (avail len : ℕ)
    → avail < 2 ^ 31
    → len < 2 ^ 31
    → (overflows avail len ≡ true) ↔ (len ≤ avail × (avail < len + overflow_length))
unfolding overflows
overflows_iff avail len small short = (λ e. ground (arith, e), λ h. ground (arith, h))
