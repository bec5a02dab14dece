-- ===== src/Strings/Compare.antt =====
-- What the result of `memcmp` says.
use guestvm_guk.Base.{
  ℕ, zero, suc, ◌-◌, ◌≤◌, ◌<◌, ◌≡◌, ◌≢◌, ◌↔◌, refl, ◌∙◌, arith, some, List, [], ◌∷◌, ◌++◌, ◌==◌,
  leb, ltb, if◌then◌else◌, length, if-true, if-false, Bool-cases, inl, inr,
}
use guestvm_guk.Strings.{char_diff, memcmp}

abbrev pub Bytes : List ℕ → Type 0
Bytes [] = Unit
Bytes (b ∷ bs) = (b < 256) × Bytes bs

-- The first `n` bytes are the same.
abbrev pub SameBytes : ℕ → List ℕ → List ℕ → Type 0
SameBytes zero cs ct = Unit
SameBytes (suc n) [] ct = ⊥
SameBytes (suc n) (a ∷ cs) [] = ⊥
SameBytes (suc n) (a ∷ cs) (b ∷ ct) = (a ≡ b) × SameBytes n cs ct

-- On two regions of at least `n` bytes `memcmp` returns, and its result is 0 exactly when their
-- first `n` bytes are the same.
pub memcmp-SameBytes :
    (n : ℕ) (cs ct : List ℕ)
    → Bytes cs
    → Bytes ct
    → n ≤ length cs
    → n ≤ length ct
    → (r : ℕ) × (memcmp n cs ct ≡ some r) × ((r ≡ 0) ↔ SameBytes n cs ct)
unfolding memcmp char_diff
memcmp-SameBytes zero cs ct vs vt hs ht = (0, refl, ((λ _. tt), λ _. refl))
memcmp-SameBytes (suc n) [] ct vs vt hs ht = absurd (omega arith)
memcmp-SameBytes (suc n) (a ∷ cs) [] vs vt hs ht = absurd (omega arith)
memcmp-SameBytes (suc n) (a ∷ cs) (b ∷ ct) vs vt hs ht =
    let (r, e, iff) = memcmp-SameBytes n cs ct vs.1 vt.1 (omega arith) (omega arith) in
    elim (Bool-cases (char_diff a b == 0)) [
      | inl same ↦ (r, if-true _ _ _ same ∙ e, ((λ z. (ground arith, iff.0 z)), λ s. iff.1 s.1))
      | inr different ↦ (
        char_diff a b,
        if-false _ _ _ different,
        ((λ z. absurd (ground arith)), λ s. absurd (ground (arith, s.0))),
      )
    ]

-- Where two regions first differ within the bytes to compare, `memcmp` returns a negative result
-- exactly when the first region's byte is smaller by at most 128 or larger by at least 128.
pub memcmp-sign :
    (p cs ct : List ℕ) (n a b : ℕ)
    → a < 256
    → b < 256
    → a ≢ b
    → length p < n
    → (r : ℕ) × (memcmp n (p ++ (a ∷ cs)) (p ++ (b ∷ ct)) ≡ some r)
      × (leb 128 r ≡ (if ltb a b then leb (b - a) 128 else leb 128 (a - b)))
unfolding memcmp char_diff
memcmp-sign p cs ct zero a b ha hb ne long = absurd (omega arith)
memcmp-sign [] cs ct (suc n) a b ha hb ne long =
    (char_diff a b, if-false (char_diff a b == 0) _ _ (ground arith), ground arith)
memcmp-sign (x ∷ p) cs ct (suc n) a b ha hb ne long =
    let (r, e, sign) = memcmp-sign p cs ct n a b ha hb ne (omega arith) in
    (r, if-true (char_diff x x == 0) _ _ (ground arith) ∙ e, sign)
