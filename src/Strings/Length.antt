-- ===== src/Strings/Length.antt =====
-- The two lengths of a string.
use guestvm_guk.Base.{
  refl, ◌≢◌, ◌++◌, length, ℕ, zero, suc, ◌≡◌, arith, min, some, List, [], ◌∷◌, ◌==◌, sym, ◌∙◌, ap,
  if-true, if-false, Bool-cases, inl, inr, Option-cases,
}
use guestvm_guk.Strings.{strlen, strnlen, one_more}

-- On a string that ends, `strnlen` is the smaller of `strlen` and the bound.
pub strnlen-strlen :
    (s : List ℕ) (count l : ℕ) → strlen s ≡ some l → strnlen s count ≡ some (min l count)
unfolding strlen strnlen
strnlen-strlen s zero l e = ap some (omega arith)
strnlen-strlen [] (suc count) l e = cc
strnlen-strlen (c ∷ s) (suc count) l e = elim (Bool-cases (c == 0)) [
  | inl ends ↦
      let zero_long : 0 ≡ l = cc (sym (if-true _ _ _ ends) ∙ e) in
      if-true _ _ _ ends ∙ ap some (omega arith)
  | inr more ↦ elim (Option-cases (strlen s)) [
    | inl lost ↦ cc (sym (if-false _ _ _ more ∙ ap one_more lost) ∙ e)
    | inr (k, f) ↦
        let one : suc k ≡ l = cc (sym (if-false _ _ _ more ∙ ap one_more f) ∙ e) in
        if-false _ _ _ more ∙ ap one_more (strnlen-strlen s count k f) ∙ ap some (omega arith)
  ]
]

-- bytes that no string ends in
abbrev pub NoZero : List ℕ → Type 0
NoZero [] = Unit
NoZero (b ∷ bytes) = (b ≢ 0) × NoZero bytes

-- The length of a string with more bytes behind it.
pub strlen-name :
    (name rest : List ℕ) → NoZero name → strlen (name ++ (0 ∷ rest)) ≡ some (length name)
unfolding strlen
strlen-name [] rest v = refl
strlen-name (b ∷ name) rest v =
    if-false (b == 0) _ _ (ground (arith, v.0)) ∙ ap one_more (strlen-name name rest v.1)
