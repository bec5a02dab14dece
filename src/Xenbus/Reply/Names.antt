-- ===== src/Xenbus/Reply/Names.antt =====
-- The strings of a directory reply.
use guestvm_guk.Base.{
  take, drop, ℕ, suc, ◌+◌, ◌≡◌, refl, sym, ap, ap₂, ◌∙◌, arith, some, List, [], ◌∷◌, ◌++◌, map,
  append-nil, length,
}
use guestvm_guk.Strings.Length.{NoZero, strlen-name}
use guestvm_guk.Xenbus.Reply.{count_strings, copy_strings, cons_name}

abbrev pub AllNoZero : List (List ℕ) → Type 0
AllNoZero [] = Unit
AllNoZero (name ∷ names) = NoZero name × AllNoZero names

abbrev pub as_string : List ℕ → List ℕ
as_string name = name ++ (0 ∷ [])

-- strings in a row, and then `tail`
abbrev pub row : List (List ℕ) → List ℕ → List ℕ
row [] tail = tail
row (name ∷ names) tail = name ++ (0 ∷ row names tail)

take-name : (name rest : List ℕ) → take (suc (length name)) (name ++ (0 ∷ rest)) ≡ as_string name
take-name [] rest = refl
take-name (b ∷ name) rest = ap (λ l. b ∷ l) (take-name name rest)

drop-name : (name rest : List ℕ) → drop (suc (length name)) (name ++ (0 ∷ rest)) ≡ rest
drop-name [] rest = refl
drop-name (b ∷ name) rest = drop-name name rest

count_strings-NoZero :
    (name rest : List ℕ) → NoZero name → count_strings (name ++ rest) ≡ count_strings rest
unfolding count_strings
count_strings-NoZero [] rest v = refl
count_strings-NoZero (b ∷ name) rest v = ground (arith, v.0, count_strings-NoZero name rest v.1)

count_strings-row :
    (names : List (List ℕ)) (tail : List ℕ)
    → AllNoZero names
    → NoZero tail
    → count_strings (row names tail) ≡ length names
unfolding count_strings
count_strings-row [] tail v t =
    ap count_strings (sym (append-nil tail)) ∙ count_strings-NoZero tail [] t
count_strings-row (name ∷ names) tail v t =
    count_strings-NoZero name (0 ∷ row names tail) v.0
    ∙ omega (arith, count_strings-row names tail v.1 t)

plus_one : (n : ℕ) → n + 1 ≡ suc n
plus_one n = omega arith

copy_strings-row :
    (names : List (List ℕ)) (tail : List ℕ)
    → AllNoZero names
    → copy_strings (length names) (row names tail) ≡ some (map as_string names)
unfolding copy_strings
copy_strings-row [] tail v = refl
copy_strings-row (name ∷ names) tail v =
    rw (copy_strings, strlen-name name (row names tail) v.0)
      (ap₂ cons_name
        (ap (λ k. take k (name ++ (0 ∷ row names tail))) (plus_one (length name))
          ∙ take-name name (row names tail))
        (ap (λ k. copy_strings (length names) (drop k (name ++ (0 ∷ row names tail))))
            (plus_one (length name))
          ∙ ap (copy_strings (length names)) (drop-name name (row names tail))
          ∙ copy_strings-row names tail v.1))

-- The listing that `xenbus_ls` makes of a reply that is a row of strings, each ended by a 0, is
-- those strings in their order, whatever bytes that are not 0 come behind them.
pub copy_strings-names :
    (names : List (List ℕ)) (tail : List ℕ)
    → AllNoZero names
    → NoZero tail
    → copy_strings (count_strings (row names tail)) (row names tail) ≡ some (map as_string names)
copy_strings-names names tail v t =
    ap (λ n. copy_strings n (row names tail)) (count_strings-row names tail v t)
    ∙ copy_strings-row names tail v
