-- ===== src/Strings/Tests.antt =====
-- The theorems on strings at two short ones.
use guestvm_guk.Base.{ℕ, ◌≡◌, ◌↔◌, refl, arith, min, some, List, [], ◌∷◌, leb, true}
use guestvm_guk.Strings.{memcmp, strlen, strnlen}
use guestvm_guk.Strings.Compare.{SameBytes, memcmp-SameBytes, memcmp-sign}
use guestvm_guk.Strings.Length.{strnlen-strlen}

abbrev abc : List ℕ
abc = 97 ∷ 98 ∷ 99 ∷ 0 ∷ []

abbrev abd : List ℕ
abd = 97 ∷ 98 ∷ 100 ∷ 0 ∷ []

memcmp-SameBytes_test : (r : ℕ) × (memcmp 4 abc abd ≡ some r) × ((r ≡ 0) ↔ SameBytes 4 abc abd)
memcmp-SameBytes_test =
    memcmp-SameBytes 4 abc abd (omega arith, (omega arith, (omega arith, (omega arith, tt))))
      (omega arith, (omega arith, (omega arith, (omega arith, tt)))) (omega arith) (omega arith)

-- byte 200 against byte 10
memcmp-sign_test : (r : ℕ) × (memcmp 2 (97 ∷ 200 ∷ []) (97 ∷ 10 ∷ []) ≡ some r) × (leb 128 r ≡ true)
memcmp-sign_test =
    memcmp-sign (97 ∷ []) [] [] 2 200 10 (omega arith) (omega arith) (λ e. absurd (omega arith))
      (omega arith)

strnlen-strlen_test : strnlen abc 2 ≡ some (min 3 2)
unfolding strlen
strnlen-strlen_test = strnlen-strlen abc 2 3 refl
