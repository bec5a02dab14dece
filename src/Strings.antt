-- ===== src/Strings.antt =====
-- lib/string.c: the comparison of memory and the length of strings. Memory from an address on is a list
-- of bytes; `none` is a read behind its end.
pub mod Compare
pub mod Length
mod Tests
use guestvm_guk.Base.{
  ℕ, zero, suc, ◌+◌, ◌-◌, ◌%◌, Bool, true, false, Option, none, some, List, [], ◌∷◌, ◌==◌,
  if◌then◌else◌,
}

-- the difference of two bytes in a `signed char`, as its 8 bits
unfoldable pub char_diff : ℕ → ℕ → ℕ
char_diff a b = (a + 256 - b) % 256

pub memcmp : ℕ → List ℕ → List ℕ → Option ℕ
memcmp zero cs ct = some 0
memcmp (suc count) [] ct = none
memcmp (suc count) (a ∷ cs) [] = none
memcmp (suc count) (a ∷ cs) (b ∷ ct) =
    let rest = memcmp count cs ct in let res = char_diff a b in if res == 0 then rest else some res

abbrev pub one_more : Option ℕ → Option ℕ
one_more none = none
one_more (some n) = some (suc n)

unfoldable pub strlen : List ℕ → Option ℕ
strlen [] = none
strlen (c ∷ s) = let rest = one_more (strlen s) in if c == 0 then some 0 else rest

pub strnlen : List ℕ → ℕ → Option ℕ
strnlen s zero = some 0
strnlen [] (suc count) = none
strnlen (c ∷ s) (suc count) =
    let rest = one_more (strnlen s count) in if c == 0 then some 0 else rest

-- `strcmp` ends at the first difference, or at the end of both strings.
unfoldable pub strcmp : List ℕ → List ℕ → Option ℕ
strcmp [] ct = none
strcmp (a ∷ cs) [] = none
strcmp (a ∷ cs) (b ∷ ct) =
    let rest = strcmp cs ct in
    let res = char_diff a b in if res == 0 then (if a == 0 then some 0 else rest) else some res

-- `strcmp(cs, ct) == 0`
unfoldable pub same_string : List ℕ → List ℕ → Bool
same_string cs ct = elim (strcmp cs ct) [ none ↦ false | some r ↦ r == 0 ]
