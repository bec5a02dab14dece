-- ===== src/Memory/Scan/Tests.antt =====
-- The searches at a bitmap of one word.
use guestvm_guk.Base.{ℕ, ◌≡◌, ◌≤◌, ◌<◌, true, false, arith, List, [], ◌∷◌}
use guestvm_guk.Memory.Bitmap.{allocated_in_map}
use guestvm_guk.Memory.Scan.{next_free}
use guestvm_guk.Memory.Scan.NextFree.{next_free-first}

-- pages 0 to 2 and 5 in use
abbrev word : List ℕ
word = 0x27 ∷ []

next_free-first_test :
    (0 ≤ next_free word 64 0)
    × (next_free word 64 0 ≤ 64)
    × ((p : ℕ) → 0 ≤ p → p < next_free word 64 0 → allocated_in_map word p ≡ true)
    × (next_free word 64 0 < 64 → allocated_in_map word (next_free word 64 0) ≡ false)
next_free-first_test = next_free-first word 64 0 (omega arith) (omega arith)
