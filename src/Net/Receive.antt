-- ===== src/Net/Receive.antt =====
-- What the receive loop of the network front end takes, and when it ends.
use guestvm_guk.Base.{
  ℕ, zero, suc, ◌+◌, ◌-◌, ◌%◌, ◌^◌, ◌<◌, ◌≡◌, refl, ap, ◌∙◌, subst, Bool, true, false, ◌||◌, arith,
  none, some, ◌==◌, if-true, if-false,
}
use guestvm_guk.Net.{Received, Net, take_packet, next_index, rx_loop}

module _ (netif_rsp_null : ℕ) (ring : ℕ → Received) where
  -- The response makes the loop go round without a step.
  abbrev pub is_skipped : ℕ → Bool
  is_skipped i = (ring i).has_extra_info || (ring i).status == netif_rsp_null

  -- None of the `n` responses from `cons` is skipped.
  abbrev pub Plain : ℕ → ℕ → Type 0
  Plain cons n = (k : ℕ) → k < n → is_skipped ((cons + k) % 2 ^ 32) ≡ false

  -- the `n` responses from `cons`, taken one after the other
  unfoldable pub taking : ℕ → ℕ → Net → Net
  taking cons zero s = s
  taking cons (suc n) s = taking (next_index cons) n (take_packet (ring cons) s)

  Plain-next : (cons n : ℕ) → cons < 2 ^ 32 → Plain cons (suc n) → Plain (next_index cons) n
  Plain-next cons n low v k h =
      subst (λ i. is_skipped i ≡ false) (shift k) (v (suc k) (omega arith))
    where
      shift : (k : ℕ) → (cons + suc k) % 2 ^ 32 ≡ ((cons + 1) % 2 ^ 32 + k) % 2 ^ 32
      shift k = omega arith

  Plain-first : (cons n : ℕ) → cons < 2 ^ 32 → Plain cons (suc n) → is_skipped cons ≡ false
  Plain-first cons n low v = subst (λ i. is_skipped i ≡ false) start (v 0 (omega arith))
    where
      start : (cons + 0) % 2 ^ 32 ≡ cons
      start = omega (arith, low)

  pub rx_loop-taking :
      (fuel cons n k : ℕ) (s : Net)
      → cons < 2 ^ 32
      → n < 2 ^ 32
      → n < fuel
      → Plain cons n
      → rx_loop netif_rsp_null ring fuel cons ((cons + n) % 2 ^ 32) k s
        ≡ some (k + n, taking cons n s)
  unfolding rx_loop taking
  rx_loop-taking zero cons n k s low short enough v = absurd (omega arith)
  rx_loop-taking (suc fuel) cons zero k s low short enough v =
      if-true (cons == (cons + 0) % 2 ^ 32) _ _ (ground (arith, low))
      ∙ ap (λ m. some (m, s)) (omega arith)
  rx_loop-taking (suc fuel) cons (suc n) k s low short enough v =
      if-false (cons == (cons + suc n) % 2 ^ 32) _ _ (ground (arith, low, short))
      ∙ if-false (is_skipped cons) _ _ (Plain-first cons n low v)
      ∙ ap
          (λ rp.
            rx_loop netif_rsp_null ring fuel (next_index cons) rp (k + 1)
              (take_packet (ring cons) s))
          (shift n)
      ∙ rx_loop-taking fuel (next_index cons) n (k + 1) (take_packet (ring cons) s) (omega arith)
          (omega arith) (omega arith) (Plain-next cons n low v)
      ∙ ap (λ m. some (m, taking (next_index cons) n (take_packet (ring cons) s))) (omega arith)
    where
      shift : (n : ℕ) → (cons + suc n) % 2 ^ 32 ≡ ((cons + 1) % 2 ^ 32 + n) % 2 ^ 32
      shift n = omega arith

  -- Where the response at place n after the consumer's index, with plain responses before it, has
  -- extra information or the null status, and the producer's index is behind it, the loop of
  -- `network_rx` does not end, however long it runs.
  pub rx_loop-endless :
      (fuel cons n d k : ℕ) (s : Net)
      → cons < 2 ^ 32
      → n < d
      → d < 2 ^ 32
      → Plain cons n
      → is_skipped ((cons + n) % 2 ^ 32) ≡ true
      → rx_loop netif_rsp_null ring fuel cons ((cons + d) % 2 ^ 32) k s ≡ none
  unfolding rx_loop
  rx_loop-endless zero cons n d k s low before short v stuck = refl
  rx_loop-endless (suc fuel) cons zero d k s low before short v stuck =
      if-false (cons == (cons + d) % 2 ^ 32) _ _ (ground (arith, low, before, short))
      ∙ if-true (is_skipped cons) _ _ (subst (λ i. is_skipped i ≡ true) (omega (arith, low)) stuck)
      ∙ rx_loop-endless fuel cons zero d k s low before short v stuck
  rx_loop-endless (suc fuel) cons (suc n) d k s low before short v stuck =
      if-false (cons == (cons + d) % 2 ^ 32) _ _ (ground (arith, low, before, short))
      ∙ if-false (is_skipped cons) _ _ (Plain-first cons n low v)
      ∙ ap
          (λ rp.
            rx_loop netif_rsp_null ring fuel (next_index cons) rp (k + 1)
              (take_packet (ring cons) s))
          (omega (arith, before))
      ∙ rx_loop-endless fuel (next_index cons) n (d - 1) (k + 1) (take_packet (ring cons) s)
          (omega arith) (omega arith) (omega arith) (Plain-next cons n low v)
          (subst (λ i. is_skipped i ≡ true) (omega arith) stuck)
