-- ===== src/Net/Rounds.antt =====
-- How many buffers the network front end posts again.
use guestvm_guk.Base.{
  ℕ, zero, suc, ◌+◌, ◌-◌, ◌%◌, ◌^◌, ◌<◌, ◌≡◌, refl, sym, ap, ◌∙◌, subst, true, not, ◌&&◌, arith,
  some, List, [], ◌∷◌, ◌++◌, ltb, if-true, if-false, Bool-cases, inl, inr, length, length-append,
  bit_and,
}
use guestvm_guk.Net.{
  Received, Net, put, take_packet, next_index, rx_rounds, repost, posted, network_rx,
}
use guestvm_guk.Net.Receive.{Plain, taking, rx_loop-taking}

-- what the rounds leave as it is, and how many grants they have ended
pub record Took (n : ℕ) (s s' : Net) : Type 0 where
  pub ended : length s'.ended ≡ length s.ended + n
  pub same : s'.rx_posted ≡ s.rx_posted

Took-trans : (n m : ℕ) (s s1 s2 : Net) → Took n s s1 → Took m s1 s2 → Took (n + m) s s2
Took-trans n m s s1 s2 a b = record {
  ended = omega (arith, a.ended, b.ended);
  same = b.same ∙ a.same;
}

take_packet-Took : (rx : Received) (s : Net) → Took 1 s (take_packet rx s)
take_packet-Took rx s = elim (Bool-cases (ltb 0 rx.status && ltb rx.status (2 ^ 15))) [
  | inl good ↦
      subst (Took 1 s) (sym (if-true _ _ _ good))
        (record { ended = length-append s.ended _; same = refl })
  | inr bad ↦
      subst (Took 1 s) (sym (if-false _ _ _ bad))
        (record { ended = length-append s.ended _; same = refl })
]

repost-length :
    (grant : ℕ → ℕ) (size n i : ℕ) (s : Net)
    → (length (repost grant size n i s).rx_posted ≡ length s.rx_posted + n)
      × ((repost grant size n i s).ended ≡ s.ended)
unfolding repost
repost-length grant size zero i s = (omega arith, refl)
repost-length grant size (suc n) i s =
    let id = bit_and ((s.rx_req_prod_pvt + i) % 2 ^ 32) (size - 1) in
    let (a, b) = repost-length grant size n (i + 1) (record s {
      rx_gref = put s.rx_gref id (grant id);
      rx_posted = s.rx_posted ++ ((id, grant id) ∷ []);
    }) in
    (omega (arith, a, length-append s.rx_posted ((id, grant id) ∷ [])), b)

zero_plus : (n : ℕ) → 0 + n ≡ n
zero_plus n = omega arith

abbrev pub last : ℕ → List ℕ → ℕ
last n [] = n
last n (m ∷ ms) = last m ms

abbrev pub total : ℕ → List ℕ → ℕ
total n [] = n
total n (m ∷ ms) = n + total m ms

-- the indices that the rounds go up to, of which one takes `n` responses and the others `ms`
abbrev pub indices : ℕ → List ℕ → List ℕ
indices cons [] = []
indices cons (m ∷ ms) = (cons + m) % 2 ^ 32 ∷ indices ((cons + m) % 2 ^ 32) ms

module _ (netif_rsp_null : ℕ) (ring : ℕ → Received) where
  taking-Took : (n cons : ℕ) (s : Net) → Took n s (taking netif_rsp_null ring cons n s)
  unfolding taking
  taking-Took zero cons s = record { ended = omega arith; same = refl }
  taking-Took (suc n) cons s =
      subst (λ k. Took k s (taking netif_rsp_null ring cons (suc n) s)) (omega arith)
        (Took-trans 1 n s (take_packet (ring cons) s) _ (take_packet-Took (ring cons) s)
          (taking-Took n (next_index cons) (take_packet (ring cons) s)))

  -- Every round finds plain responses, and there are rounds of fuel for each.
  abbrev pub AllPlain : ℕ → ℕ → ℕ → List ℕ → Type 0
  AllPlain fuel cons n [] = (n < fuel) × (n < 2 ^ 31) × Plain netif_rsp_null ring cons n
  AllPlain fuel cons n (m ∷ ms) =
      (n < fuel)
      × (n < 2 ^ 31)
      × Plain netif_rsp_null ring cons n
      × AllPlain fuel ((cons + n) % 2 ^ 32) m ms

  rx_rounds-Took :
      (fuel n : ℕ) (ms : List ℕ) (s : Net)
      → s.rx_rsp_cons < 2 ^ 32
      → AllPlain fuel s.rx_rsp_cons n ms
      → (s' : Net) × (rx_rounds netif_rsp_null ring fuel
            ((s.rx_rsp_cons + n) % 2 ^ 32)
            (indices ((s.rx_rsp_cons + n) % 2 ^ 32) ms)
            s
          ≡ some (last n ms, s'))
        × Took (total n ms) s s'
  unfolding rx_rounds
  rx_rounds-Took fuel n [] s low (a, b, v) = (
    after,
    rw
        (
          rx_loop-taking netif_rsp_null ring fuel s.rx_rsp_cons n 0 s low (omega (arith, b)) a v,
          rx_rounds,
        )
        (ap (λ k. some (k, after)) (zero_plus n)),
    record {
      ended = (taking-Took n s.rx_rsp_cons s).ended;
      same = (taking-Took n s.rx_rsp_cons s).same;
    },
  )
    where
      after : Net
      after = record (taking netif_rsp_null ring s.rx_rsp_cons n s) {
        rx_rsp_cons = (s.rx_rsp_cons + n) % 2 ^ 32;
      }
  rx_rounds-Took fuel n (m ∷ ms) s low (a, b, v, more) =
      let after = record (taking netif_rsp_null ring s.rx_rsp_cons n s) {
        rx_rsp_cons = (s.rx_rsp_cons + n) % 2 ^ 32;
      } in
      let (s', f, t) = rx_rounds-Took fuel m ms after (omega arith) more in
      (
        s',
        rw
            (
              rx_loop-taking netif_rsp_null ring fuel s.rx_rsp_cons n 0 s low (omega (arith, b)) a
                  v,
              rx_rounds,
            )
            f,
        Took-trans n (total m ms) s after s'
            (record {
              ended = (taking-Took n s.rx_rsp_cons s).ended;
              same = (taking-Took n s.rx_rsp_cons s).same;
            })
            t,
      )

  -- Where the front end is ready, the consumer's index has 32 bits, every round finds plain
  -- responses, fewer than 2 ^ 31, and there is fuel for each, `network_rx` returns: the grants of
  -- all the buffers of all rounds have been ended, but only as many buffers as the last round took
  -- have been posted again.
  pub network_rx-posts :
      (grant : ℕ → ℕ) (size fuel n : ℕ) (ms : List ℕ) (s : Net)
      → s.is_ready ≡ true
      → s.rx_rsp_cons < 2 ^ 32
      → AllPlain fuel s.rx_rsp_cons n ms
      → (s' : Net) × (network_rx grant size netif_rsp_null ring fuel
            ((s.rx_rsp_cons + n) % 2 ^ 32)
            (indices ((s.rx_rsp_cons + n) % 2 ^ 32) ms)
            s
          ≡ some s')
        × (length s'.ended ≡ length s.ended + total n ms)
        × (length s'.rx_posted ≡ length s.rx_posted + last n ms)
  unfolding network_rx
  network_rx-posts grant size fuel n ms s ready low v =
      let (s1, f, t) = rx_rounds-Took fuel n ms s low v in
      let (a, b) = repost-length grant size (last n ms) 0 s1 in
      (
        record (repost grant size (last n ms) 0 s1) {
          rx_req_prod_pvt = (s1.rx_req_prod_pvt + last n ms) % 2 ^ 32;
        },
        if-false (not s.is_ready) _ _ (ap not ready) ∙ ap (posted grant size) f,
        ap length b ∙ t.ended,
        a ∙ ap (λ l. length l + last n ms) t.same,
      )
