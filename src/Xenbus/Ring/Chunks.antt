-- ===== src/Xenbus/Ring/Chunks.antt =====
-- The copy by chunks against one that goes byte by byte.
use guestvm_guk.Base.{
  ℕ, zero, suc, ◌+◌, ◌-◌, ◌%◌, ◌^◌, ◌≤◌, ◌<◌, ◌≡◌, refl, sym, ap, ap₂, ◌∙◌, min, arith, some, List,
  [], ◌∷◌, ◌++◌, length, ◌==◌, ==_iff, if-true, if-false, Bool-cases, inl, inr, append_assoc,
  length-append, take, drop, length-take, length-drop, take-drop, drop-drop,
}
use guestvm_guk.Xenbus.Ring.{Wire, next_index, put_byte, copy_in, total_length, write_loop}

drop-all : (n : ℕ) (bs : List ℕ) → length bs ≤ n → drop n bs ≡ []
drop-all zero [] h = refl
drop-all zero (b ∷ bs) h = absurd (omega arith)
drop-all (suc n) [] h = refl
drop-all (suc n) (b ∷ bs) h = drop-all n bs (omega arith)

-- the pieces in a row
abbrev pub concat : List (List ℕ) → List ℕ
concat [] = []
concat (p ∷ pieces) = p ++ concat pieces

pub length-concat : (pieces : List (List ℕ)) → length (concat pieces) ≡ total_length pieces
unfolding total_length
length-concat [] = refl
length-concat (p ∷ pieces) = omega (arith, length-append p (concat pieces), length-concat pieces)

module _ (w : Wire) where
  -- The reference: one byte at each index from `i` on.
  unfoldable pub put : (ℕ → ℕ) → ℕ → List ℕ → ℕ → ℕ
  put ring i [] = ring
  put ring i (b ∷ bytes) = put (put_byte ring (w.mask i) b) (next_index i) bytes

  unfoldable pub get : (ℕ → ℕ) → ℕ → ℕ → List ℕ
  get ring i zero = []
  get ring i (suc n) = ring (w.mask i) ∷ get ring (next_index i) n

  -- The mask of the next index, inside the ring
  pub mask-next_index : (i : ℕ) → w.mask i + 1 < w.size → w.mask (next_index i) ≡ w.mask i + 1
  mask-next_index i h = ground (arith, w.mask_add i 1)

  copy_in-put :
      (ring : ℕ → ℕ) (i : ℕ) (bytes : List ℕ)
      → w.mask i + length bytes ≤ w.size
      → copy_in ring (w.mask i) bytes ≡ put ring i bytes
  unfolding copy_in put
  copy_in-put ring i [] h = refl
  copy_in-put ring i (b ∷ []) h = refl
  copy_in-put ring i (b ∷ c ∷ bytes) h =
      ap (λ k. copy_in (put_byte ring (w.mask i) b) k (c ∷ bytes))
        (sym (mask-next_index i (omega arith)))
      ∙ copy_in-put (put_byte ring (w.mask i) b) (next_index i) (c ∷ bytes)
          (omega (arith, mask-next_index i (omega arith)))

  put-append :
      (ring : ℕ → ℕ) (i : ℕ) (xs ys : List ℕ)
      → i < 2 ^ 32
      → put ring i (xs ++ ys) ≡ put (put ring i xs) ((i + length xs) % 2 ^ 32) ys
  unfolding put
  put-append ring i [] ys h = ap (λ k. put ring k ys) (omega arith)
  put-append ring i (x ∷ xs) ys h =
      put-append (put_byte ring (w.mask i) x) (next_index i) xs ys (omega arith)
      ∙ ap (λ k. put (put (put_byte ring (w.mask i) x) (next_index i) xs) k ys) (omega arith)

  -- the bytes that `write_loop` has yet to copy
  abbrev pub remaining : List (List ℕ) → ℕ → List ℕ
  remaining [] req_off = []
  remaining (cur ∷ pieces) req_off = drop req_off cur ++ concat pieces

  remaining-zero : (pieces : List (List ℕ)) → remaining pieces 0 ≡ concat pieces
  remaining-zero [] = refl
  remaining-zero (p ∷ pieces) = refl

  abbrev pub InPiece : List (List ℕ) → ℕ → Type 0
  InPiece [] req_off = Unit
  InPiece (cur ∷ pieces) req_off = req_off ≤ length cur

  InPiece-zero : (pieces : List (List ℕ)) → InPiece pieces 0
  InPiece-zero [] = tt
  InPiece-zero (p ∷ pieces) = omega arith

  put-empty : (ring : ℕ → ℕ) (i : ℕ) (bytes : List ℕ) → length bytes ≡ 0 → put ring i bytes ≡ ring
  unfolding put
  put-empty ring i [] h = refl
  put-empty ring i (b ∷ bytes) h = absurd (omega arith)

  -- one chunk, and what comes after it
  put-chunk :
      (ring : ℕ → ℕ) (prod n : ℕ) (bytes rest : List ℕ)
      → n ≤ length bytes
      → w.mask prod + n ≤ w.size
      → prod < 2 ^ 32
      → put ring prod (bytes ++ rest)
        ≡ put
            (copy_in ring (w.mask prod) (take n bytes))
            ((prod + n) % 2 ^ 32)
            (drop n bytes ++ rest)
  put-chunk ring prod n bytes rest h room small =
      ap (λ l. put ring prod (l ++ rest)) (sym (take-drop n bytes))
      ∙ ap (put ring prod) (append_assoc (take n bytes) (drop n bytes) rest)
      ∙ put-append ring prod (take n bytes) (drop n bytes ++ rest) small
      ∙ ap (λ r. put r ((prod + length (take n bytes)) % 2 ^ 32) (drop n bytes ++ rest))
          (sym (copy_in-put ring prod (take n bytes) (ground (arith, length-take n bytes, h))))
      ∙ ap
          (λ k.
            put (copy_in ring (w.mask prod) (take n bytes)) ((prod + k) % 2 ^ 32)
              (drop n bytes ++ rest))
          (ground (arith, length-take n bytes, h))

  pub write_loop-put :
      (fuel : ℕ) (pieces : List (List ℕ)) (req_off left prod : ℕ) (ring : ℕ → ℕ)
      → length (remaining pieces req_off) ≡ left
      → InPiece pieces req_off
      → left + length pieces ≤ fuel
      → prod < 2 ^ 32
      → write_loop w fuel pieces req_off left prod ring
        ≡ some ((prod + left) % 2 ^ 32, put ring prod (remaining pieces req_off))
  unfolding write_loop
  write_loop-put fuel pieces off zero prod ring all inside enough small =
      ap₂ (λ k r. some (k, r)) (omega arith) (sym (put-empty ring prod (remaining pieces off) all))
  write_loop-put zero pieces off (suc left) prod ring all inside enough small = absurd (omega arith)
  write_loop-put (suc fuel) [] off (suc left) prod ring all inside enough small =
      absurd (omega arith)
  write_loop-put (suc fuel) (cur ∷ pieces) off (suc left) prod ring all inside enough small =
      elim (Bool-cases (off + chunk == length cur)) [
        | inl whole ↦
            if-true _ _ _ whole
            ∙ write_loop-put fuel pieces 0 (suc left - chunk) prod' ring'
                (ap length (remaining-zero pieces)
                  ∙ omega (arith, lengths, (==_iff (off + chunk) (length cur)).0 whole))
                (InPiece-zero pieces) (ground arith) (omega arith)
            ∙ ap₂ (λ k r. some (k, r)) (omega (arith, fits))
                (ap (put ring' prod') (
                    remaining-zero pieces
                    ∙ ap (λ l. l ++ concat pieces)
                        (sym (drop-all chunk (drop off cur) (ground (arith, length-drop off cur)))))
                  ∙ sym moved)
        | inr part ↦
            if-false _ _ _ part
            ∙ write_loop-put fuel (cur ∷ pieces) (off + chunk) (suc left - chunk) prod' ring'
                (length-append (drop (off + chunk) cur) (concat pieces)
                  ∙ omega (arith, lengths, length-drop (off + chunk) cur, inside))
                (omega (arith, inside)) (ground (arith, w.mask_lt prod)) (omega arith)
            ∙ ap₂ (λ k r. some (k, r)) (omega (arith, fits))
                (ap (λ l. put ring' prod' (l ++ concat pieces)) (sym (drop-drop off chunk cur))
                  ∙ sym moved)
      ]
    where
      chunk : ℕ
      chunk = min (length cur - off) (w.size - w.mask prod)

      ring' : ℕ → ℕ
      ring' = copy_in ring (w.mask prod) (take chunk (drop off cur))

      prod' : ℕ
      prod' = (prod + chunk) % 2 ^ 32

      lengths : (length cur - off) + length (concat pieces) ≡ suc left
      lengths =
          omega (arith, all, length-append (drop off cur) (concat pieces), length-drop off cur)

      fits : chunk ≤ suc left
      fits = omega (arith, lengths)

      moved :
          put ring prod (drop off cur ++ concat pieces)
          ≡ put ring' prod' (drop chunk (drop off cur) ++ concat pieces)
      moved =
          put-chunk ring prod chunk (drop off cur) (concat pieces)
            (omega (arith, length-drop off cur)) (omega (arith, w.mask_lt prod)) small
