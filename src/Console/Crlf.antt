-- ===== src/Console/Crlf.antt =====
-- What the console writes for a text with line ends, and texts by the place in them.
use guestvm_guk.Base.{
  ℕ, suc, ◌+◌, ◌≡◌, refl, sym, ap, ◌∙◌, true, false, arith, List, [], ◌∷◌, ◌++◌, append_assoc, ◌==◌,
  if◌then◌else◌, if-true, if-false, length, get_or, set, take, drop,
}
use guestvm_guk.Console.{with_line_end, restored}

-- The reference: each line end is a carriage return and a line end.
unfoldable pub crlf : List ℕ → List ℕ
crlf [] = []
crlf (c ∷ bytes) = if c == 10 then 13 ∷ 10 ∷ crlf bytes else c ∷ crlf bytes

abbrev pub IsPlain : List ℕ → Type 0
IsPlain [] = Unit
IsPlain (c ∷ bytes) = ((c == 10) ≡ false) × IsPlain bytes

pub crlf-plain : (pre rest : List ℕ) → IsPlain pre → crlf (pre ++ rest) ≡ pre ++ crlf rest
unfolding crlf
crlf-plain [] rest p = refl
crlf-plain (c ∷ pre) rest (q, p) = if-false _ _ _ q ∙ ap (λ l. c ∷ l) (crlf-plain pre rest p)

pub IsPlain-append :
    (pre : List ℕ) (c : ℕ) → IsPlain pre → (c == 10) ≡ false → IsPlain (pre ++ (c ∷ []))
IsPlain-append [] c p q = (q, tt)
IsPlain-append (b ∷ pre) c (r, p) q = (r, IsPlain-append pre c p q)

-- The lists behind a start.
add_suc : (a k : ℕ) → suc a + k ≡ suc (a + k)
add_suc a k = omega arith

add_zero : (k : ℕ) → 0 + k ≡ k
add_zero k = omega arith

pub get_or-behind : (pre l : List ℕ) (k : ℕ) → get_or (pre ++ l) (length pre + k) 0 ≡ get_or l k 0
get_or-behind [] l k = ap (λ i. get_or l i 0) (add_zero k)
get_or-behind (b ∷ pre) l k =
    ap (λ i. get_or (b ∷ (pre ++ l)) i 0) (add_suc (length pre) k) ∙ get_or-behind pre l k

set-behind : (pre l : List ℕ) (k v : ℕ) → set (pre ++ l) (length pre + k) v ≡ pre ++ set l k v
set-behind [] l k v = ap (λ i. set l i v) (add_zero k)
set-behind (b ∷ pre) l k v =
    ap (λ i. set (b ∷ (pre ++ l)) i v) (add_suc (length pre) k)
    ∙ ap (λ m. b ∷ m) (set-behind pre l k v)

pub take-behind : (pre l : List ℕ) (k : ℕ) → take (length pre + k) (pre ++ l) ≡ pre ++ take k l
take-behind [] l k = ap (λ i. take i l) (add_zero k)
take-behind (b ∷ pre) l k =
    ap (λ i. take i (b ∷ (pre ++ l))) (add_suc (length pre) k)
    ∙ ap (λ m. b ∷ m) (take-behind pre l k)

drop-behind : (pre l : List ℕ) (k : ℕ) → drop (length pre + k) (pre ++ l) ≡ drop k l
drop-behind [] l k = ap (λ i. drop i l) (add_zero k)
drop-behind (b ∷ pre) l k =
    ap (λ i. drop i (b ∷ (pre ++ l))) (add_suc (length pre) k) ∙ drop-behind pre l k

pub at_end : (pre : List ℕ) → length pre ≡ length pre + 0
at_end pre = omega arith

with_line_end-at :
    (pre post : List ℕ) (c d : ℕ)
    → with_line_end (pre ++ (c ∷ d ∷ post)) (length pre) ≡ pre ++ (13 ∷ 10 ∷ post)
unfolding with_line_end
with_line_end-at pre post c d =
    ap (λ l. set l (length pre + 1) 10)
      (ap (λ i. set (pre ++ (c ∷ d ∷ post)) i 13) (at_end pre) ∙ set-behind pre (c ∷ d ∷ post) 0 13)
    ∙ set-behind pre (13 ∷ d ∷ post) 1 10

restored-at :
    (pre post : List ℕ) (c d v : ℕ)
    → restored (pre ++ (c ∷ d ∷ post)) (length pre) v ≡ pre ++ (10 ∷ v ∷ post)
unfolding restored
restored-at pre post c d v =
    ap (λ l. set (set l (length pre + 1) v) (length pre) 10) (with_line_end-at pre post c d)
    ∙ ap (λ l. set l (length pre) 10) (set-behind pre (13 ∷ 10 ∷ post) 1 v)
    ∙ ap (λ i. set (pre ++ (13 ∷ v ∷ post)) i 10) (at_end pre)
    ∙ set-behind pre (13 ∷ v ∷ post) 0 10

-- A line end at the end of a plain start
pub crlf-line :
    (pre post : List ℕ) (c d : ℕ)
    → IsPlain pre
    → (c == 10) ≡ true
    → crlf (pre ++ (c ∷ d ∷ post)) ≡ (pre ++ (13 ∷ 10 ∷ [])) ++ crlf (d ∷ post)
unfolding crlf
crlf-line pre post c d p ends =
    crlf-plain pre (c ∷ d ∷ post) p
    ∙ ap (λ l. pre ++ l) (if-true (c == 10) _ _ ends)
    ∙ sym (append_assoc pre (13 ∷ 10 ∷ []) (crlf (d ∷ post)))

pub line_end-taken :
    (pre post : List ℕ) (c d : ℕ)
    → take (length pre + 2) (with_line_end (pre ++ (c ∷ d ∷ post)) (length pre))
      ≡ pre ++ (13 ∷ 10 ∷ [])
line_end-taken pre post c d =
    ap (take (length pre + 2)) (with_line_end-at pre post c d) ∙ take-behind pre (13 ∷ 10 ∷ post) 2

pub line_end-dropped :
    (pre post : List ℕ) (c d : ℕ)
    → drop (length pre + 1) (
        restored
          (pre ++ (c ∷ d ∷ post))
          (length pre)
          (get_or (pre ++ (c ∷ d ∷ post)) (length pre + 1) 0))
      ≡ d ∷ post
line_end-dropped pre post c d =
    ap (drop (length pre + 1))
      (restored-at pre post c d (get_or (pre ++ (c ∷ d ∷ post)) (length pre + 1) 0))
    ∙ drop-behind pre (10 ∷ get_or (pre ++ (c ∷ d ∷ post)) (length pre + 1) 0 ∷ post) 1
    ∙ ap (λ x. x ∷ post) (get_or-behind pre (c ∷ d ∷ post) 1)
