-- ===== src/Xenbus/Ring/Transfer.antt =====
-- What `xb_write` sends, and what a reader of the ring gets.
use guestvm_guk.Base.{
  ℕ, zero, suc, ◌+◌, ◌-◌, ◌%◌, ◌^◌, ◌≤◌, ◌<◌, ◌≡◌, ◌≢◌, refl, sym, ap, ap₂, ◌∙◌, false, min, arith,
  List, [], ◌∷◌, ◌++◌, length, ◌==◌, ==_iff, if-true, if-false, Bool-cases, inl, inr, dec_lt,
  append-nil,
}
use guestvm_guk.Xenbus.Ring.{Wire, next_index, put_byte, copy_out, memcpy_from_ring}
use guestvm_guk.Xenbus.Ring.Chunks.{put, get, mask-next_index}

module _ (w : Wire) where
  copy_out-get :
      (ring : ℕ → ℕ) (i n : ℕ) → w.mask i + n ≤ w.size → copy_out ring (w.mask i) n ≡ get w ring i n
  unfolding copy_out get
  copy_out-get ring i zero h = refl
  copy_out-get ring i (suc zero) h = refl
  copy_out-get ring i (suc (suc n)) h =
      ap (λ l. ring (w.mask i) ∷ l)
        (ap (λ k. copy_out ring k (suc n)) (sym (mask-next_index w i (omega arith)))
          ∙ copy_out-get ring (next_index i) (suc n)
              (omega (arith, mask-next_index w i (omega arith))))

  pub get-append :
      (ring : ℕ → ℕ) (i m n : ℕ)
      → i < 2 ^ 32
      → get w ring i (m + n) ≡ get w ring i m ++ get w ring ((i + m) % 2 ^ 32) n
  unfolding get
  get-append ring i zero n h = ap₂ (get w ring) (omega arith) (omega arith)
  get-append ring i (suc m) n h =
      ap (get w ring i) (suc_add m n)
      ∙ ap (λ l. ring (w.mask i) ∷ l)
          (get-append ring (next_index i) m n (omega arith)
            ∙ ap (λ k. get w ring (next_index i) m ++ get w ring k n) (omega arith))
    where
      suc_add : (a b : ℕ) → suc a + b ≡ suc (a + b)
      suc_add a b = omega arith

  -- `memcpy_from_ring`, which copies in two parts, reads the bytes at the indices one by one.
  pub memcpy_from_ring-get :
      (ring : ℕ → ℕ) (i n : ℕ)
      → i < 2 ^ 32
      → n ≤ w.size
      → memcpy_from_ring w ring (w.mask i) n ≡ get w ring i n
  unfolding memcpy_from_ring copy_out
  memcpy_from_ring-get ring i n small h = elim (dec_lt (w.size - w.mask i) n) [
    | yes around ↦
        ap₂ (λ a b. a ++ b) (copy_out-get ring i c1 (omega (arith, w.mask_lt i)))
          (ap (λ k. copy_out ring k (n - c1)) (sym (wraps around))
            ∙ copy_out-get ring ((i + c1) % 2 ^ 32) (n - c1) (omega (arith, wraps around)))
        ∙ sym (get-append ring i c1 (n - c1) small)
        ∙ ap (get w ring i) (omega arith)
    | no inside ↦
        ap₂ (λ a b. a ++ b) (copy_out-get ring i c1 (omega (arith, w.mask_lt i)))
          (ap (copy_out ring 0) (none_left inside) ∙ nothing)
        ∙ append-nil (get w ring i c1)
        ∙ ap (get w ring i) (omega arith)
  ]
    where
      c1 : ℕ
      c1 = min n (w.size - w.mask i)

      wraps : w.size - w.mask i < n → w.mask ((i + c1) % 2 ^ 32) ≡ 0
      wraps around = ground (arith, w.mask_lt i, w.mask_add i c1)

      none_left : ¬ (w.size - w.mask i < n) → n - c1 ≡ 0
      none_left inside = omega arith

      nothing : copy_out ring 0 0 ≡ []
      nothing = refl

  pub put-outside :
      (ring : ℕ → ℕ) (i : ℕ) (bytes : List ℕ) (j : ℕ)
      → i < 2 ^ 32
      → ((k : ℕ) → k < length bytes → w.mask ((i + k) % 2 ^ 32) ≢ j)
      → put w ring i bytes j ≡ ring j
  unfolding put
  put-outside ring i [] j small away = refl
  put-outside ring i (b ∷ bytes) j small away =
      put-outside (put_byte ring (w.mask i) b) (next_index i) bytes j (omega arith)
        (λ k h e. away (k + 1) (omega arith) (ap w.mask (omega arith) ∙ e))
      ∙ if-false (j == w.mask i) _ _ (apart (away 0 (omega arith)))
    where
      same : w.mask ((i + 0) % 2 ^ 32) ≡ w.mask i
      same = ap w.mask (omega arith)

      apart : w.mask ((i + 0) % 2 ^ 32) ≢ j → (j == w.mask i) ≡ false
      apart ne = elim (Bool-cases (j == w.mask i)) [
        | inl e ↦ absurd (ne (same ∙ sym ((==_iff j (w.mask i)).0 e)))
        | inr e ↦ e
      ]

  -- The indices of a message have different places in the ring.
  mask-ne : (i k : ℕ) → k + 1 < w.size → w.mask ((next_index i + k) % 2 ^ 32) ≢ w.mask i
  mask-ne i k h e =
      absurd
        (ground (arith, w.mask_lt i, ap w.mask (far i k) ∙ w.mask_add i (k + 1) (omega arith), e))
    where
      far : (a b : ℕ) → ((a + 1) % 2 ^ 32 + b) % 2 ^ 32 ≡ (a + (b + 1)) % 2 ^ 32
      far a b = omega arith

  pub get-put :
      (ring : ℕ → ℕ) (i : ℕ) (bytes : List ℕ)
      → i < 2 ^ 32
      → length bytes ≤ w.size
      → get w (put w ring i bytes) i (length bytes) ≡ bytes
  unfolding get put
  get-put ring i [] small h = refl
  get-put ring i (b ∷ bytes) small h =
      ap₂ (λ x l. x ∷ l)
        (put-outside (put_byte ring (w.mask i) b) (next_index i) bytes (w.mask i) (omega arith)
            (λ k lt. mask-ne i k (omega arith))
          ∙ if-true (w.mask i == w.mask i) _ _ (ground arith))
        (get-put (put_byte ring (w.mask i) b) (next_index i) bytes (omega arith) (omega arith))
